-- ===== src/Bridge/Windows/Single.antt =====
-- The only player of the native module of entry/src/main/cpp/vlc_napi.cpp, while surfaces come and go.
use vlc_harmony.Base.{
  ℕ, ◌≡◌, ap, ◌∙◌, String, Bool, true, false, ◌&&◌, ◌||◌, Option, some, List, [], ◌∷◌, nat_eq,
  string_eq, ◌==◌, not, Bool-cases, inl, inr, arith,
}
use vlc_harmony.Base.Table.{map_values}
use vlc_harmony.Xcomponent.{Ready}
use vlc_harmony.Bridge.World.{Host, World, PlayerEntry}
use vlc_harmony.Bridge.Windows.{
  Binding, gather, is_same, shows, ready_entry, osd_entry, lost_entry, retain_all, ready_bindings,
  lost_bindings, set_osd_window, bind_osd, bind_ready, bind_all, on_surface_ready,
  detach_native_window_by_id,
}
use vlc_harmony.Bridge.Windows.Bound.{
  set_osd_window-Same, bind_picture-Same, retain_all-Same, unbind_all-Same,
}

-- What the picture of a player needs of its entry: its object, its output, and that it is bound.
abbrev pub IsPicture : Option ℕ → String → Bool → PlayerEntry → Type 0
IsPicture mp out bound e = (e.mp ≡ mp) × (e.video_out_id ≡ out) × (e.window_bound ≡ bound)

-- The table has one player, whose picture is as given.
abbrev pub IsOnly : ℕ → Option ℕ → String → Bool → World → Type 0
IsOnly h mp out bound w = (e : PlayerEntry) × (w.players ≡ (h, e) ∷ []) × IsPicture mp out bound e

-- The entries of one player under a function.
pub map_one :
    (f : PlayerEntry → PlayerEntry) (h : ℕ) (e : PlayerEntry) (m : List (ℕ × PlayerEntry))
    → m ≡ (h, e) ∷ []
    → map_values f m ≡ (h, f e) ∷ []
unfolding map_values
map_one f h e m p = ap (map_values f) p

osd_entry-IsPicture :
    (p : ℕ) (id : String) (g : ℕ) (mp : Option ℕ) (out : String) (bound : Bool) (e : PlayerEntry)
    → IsPicture mp out bound e
    → IsPicture mp out bound (osd_entry p id g e)
unfolding osd_entry
osd_entry-IsPicture p id g mp out bound e is =
    elim (Bool-cases (is_same e.mp p && e.osd_out_id == id)) [ inl c ↦ rw c is | inr c ↦ rw c is ]

module _ (host : Host) (h : ℕ) (mp : Option ℕ) (out : String) (bound : Bool) where
  bind_osd-IsOnly :
      (r : Ready) (p : ℕ) (d : Bool × World)
      → IsOnly h mp out bound d.1
      → IsOnly h mp out bound (bind_osd host r p d)
  bind_osd-IsOnly r p (false, w) only = only
  bind_osd-IsOnly r p (true, w) (e, at, is) =
      let f = osd_entry p r.id r.generation in
      (f e, map_one f h e w.players at, osd_entry-IsPicture p r.id r.generation mp out bound e is)

  bind_ready-IsOnly :
      (r : Ready) (b : Binding) (w : World)
      → IsOnly h mp out bound w
      → IsOnly h mp out bound (bind_ready host r b w)
  unfolding bind_ready
  bind_ready-IsOnly r b w (e, at, is) = elim (Bool-cases b.osd) [
    | inl c ↦ rw c (
        bind_osd-IsOnly r b.mp (set_osd_window host b.mp r.win w)
          (e, (set_osd_window-Same host b.mp r.win w).0 ∙ at, is))
    | inr c ↦ rw c (e, (bind_picture-Same host r b w).0 ∙ at, is)
  ]

  bind_all-IsOnly :
      (r : Ready) (bs : List Binding) (w : World)
      → IsOnly h mp out bound w
      → IsOnly h mp out bound (bind_all host r bs w)
  unfolding bind_all
  bind_all-IsOnly r [] w only = only
  bind_all-IsOnly r (b ∷ bs) w only =
      bind_all-IsOnly r bs (bind_ready host r b w) (bind_ready-IsOnly r b w only)

module _ (host : Host) (h mp : ℕ) (out : String) (bound : Bool) (w : World)
    (only : IsOnly h (some mp) out bound w) where
  pub on_surface_ready-IsOnly :
      (r : Ready) → IsOnly h (some mp) out (bound || shows out r.id) (on_surface_ready host r w)
  unfolding on_surface_ready
  on_surface_ready-IsOnly r =
      let (e, at, (is, output, flag)) = only in
      let bs = gather (ready_bindings r.id r.generation) w.players in
      let w₁ = retain_all bs w in
      let f = ready_entry r.id r.generation in
      bind_all-IsOnly host h (some mp) out (bound || shows out r.id) r bs
        (record w₁ { players = map_values f w₁.players })
        (
          f e,
          map_one f h e w₁.players ((retain_all-Same bs w).0 ∙ at),
          (
            unfold ready_entry in ground arith,
            unfold ready_entry in ground arith,
            unfold ready_entry in ground arith,
          ),
        )

  pub detach_native_window_by_id-IsOnly :
      (id : String)
      → IsOnly h (some mp) out (bound && not (out == id)) (detach_native_window_by_id host id w)
  unfolding detach_native_window_by_id
  detach_native_window_by_id-IsOnly id =
      let (e, at, (is, output, flag)) = only in
      let bs = gather (lost_bindings id) w.players in
      let w₁ = retain_all bs w in
      let f = lost_entry id in
      (
        f e,
        (unbind_all-Same host bs (record w₁ { players = map_values f w₁.players })).0
            ∙ map_one f h e w₁.players ((retain_all-Same bs w).0 ∙ at),
        (unfold lost_entry in is, unfold lost_entry in output, unfold lost_entry in ground arith),
      )
