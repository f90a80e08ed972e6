-- ===== src/Bridge/Surfaces/Only.antt =====
-- The only player of the native module of entry/src/main/cpp/vlc_napi.cpp, while its windows are set.
use vlc_harmony.Base.{
  ℕ, ◌≡◌, refl, ◌∙◌, String, Bool, true, false, ◌||◌, Option, none, some, List, [], ◌∷◌, nat_eq,
  string_eq, ◌==◌, Bool-cases, inl, inr, arith,
}
use vlc_harmony.Base.Table.{lookup, insert}
use vlc_harmony.Xcomponent.{get_surface_generation}
use vlc_harmony.Bridge.World.{Host, World, PlayerEntry}
use vlc_harmony.Bridge.Windows.{set_osd_window}
use vlc_harmony.Bridge.Windows.Bound.{set_osd_window-Same}
use vlc_harmony.Bridge.Windows.Single.{IsOnly}
use vlc_harmony.Bridge.Surfaces.{is_there, note_window, note_osd_window, show, show_osd, noted}

-- The entry of the only player, and another in its place.
pub find_one :
    (h : ℕ) (e : PlayerEntry) (m : List (ℕ × PlayerEntry)) → m ≡ (h, e) ∷ [] → lookup h m ≡ some e
unfolding lookup
find_one h e m p = rw p (ground (arith, nat_eq.beq_iff h h))

pub put_one :
    (h : ℕ) (e f : PlayerEntry) (m : List (ℕ × PlayerEntry))
    → m ≡ (h, e) ∷ []
    → insert h f m ≡ (h, f) ∷ []
unfolding insert
put_one h e f m p = rw p (ground (arith, nat_eq.beq_iff h h))

module _ (h : ℕ) (mp : Option ℕ) (out : String) (bound : Bool) where
  pub show-IsOnly :
      (p : ℕ) (o : Option ℕ) (w : World)
      → IsOnly h mp out bound w
      → IsOnly h mp out (bound || is_there o) (show h out p o w)
        × ((show h out p o w).manager ≡ w.manager)
  unfolding show note_window
  show-IsOnly p none w (e, at, (is, output, flag)) =
      ((e, at, (is, output, ground (arith, flag))), refl)
  show-IsOnly p (some win) w (e, at, (is, output, flag)) =
      let g = record e {
        window_bound = true;
        bound_surface_generation = get_surface_generation out w.manager;
      } in
      let same : (e.video_out_id == out) ≡ true =
        ground (arith, string_eq.beq_iff e.video_out_id out, output) in
      rw (find_one h e w.players at, same)
        ((g, put_one h e g w.players at, (is, output, ground arith)), refl)

  note_osd_window-IsOnly :
      (id : String) (w : World)
      → IsOnly h mp out bound w
      → IsOnly h mp out bound (note_osd_window h id (lookup h w.players) w)
        × ((note_osd_window h id (lookup h w.players) w).manager ≡ w.manager)
  unfolding note_osd_window
  note_osd_window-IsOnly id w (e, at, is) =
      let g = record e {
        osd_window_bound = true;
        bound_osd_surface_generation = get_surface_generation id w.manager;
      } in
      rw (find_one h e w.players at) (elim (Bool-cases (e.osd_out_id == id)) [
        | inl c ↦ rw c ((g, put_one h e g w.players at, is), refl)
        | inr c ↦ rw c ((e, at, is), refl)
      ])

  noted-IsOnly :
      (id : String) (d : Bool × World)
      → IsOnly h mp out bound d.1
      → IsOnly h mp out bound (noted h id d) × ((noted h id d).manager ≡ d.1.manager)
  unfolding noted
  noted-IsOnly id (false, w) only = (only, refl)
  noted-IsOnly id (true, w) only = note_osd_window-IsOnly id w only

  pub show_osd-IsOnly :
      (host : Host) (id : String) (p : ℕ) (o : Option ℕ) (w : World)
      → IsOnly h mp out bound w
      → IsOnly h mp out bound (show_osd host h id p o w).1
        × ((show_osd host h id p o w).1.manager ≡ w.manager)
  unfolding show_osd
  show_osd-IsOnly host id p none w only = (only, refl)
  show_osd-IsOnly host id p (some win) w (e, at, is) =
      let (q, m) = set_osd_window-Same host p (some win) w in
      let (only, n) = noted-IsOnly id (set_osd_window host p (some win) w) (e, q ∙ at, is) in
      (only, n ∙ m)
