-- ===== src/Bridge/Windows/Shown.antt =====
-- What libVLC shows the pictures of players on, once `OnSurfaceReady` or `DetachNativeWindowById` of
-- entry/src/main/cpp/vlc_napi.cpp has run, by the calls that it got.
use vlc_harmony.Base.{
  ℕ, ◌≡◌, refl, Bool, true, false, ◌&&◌, ◌||◌, not, Option, none, some, List, [], ◌∷◌, ◌++◌,
  nat_beq, if◌then◌else◌, nat_eq, string_eq, Bool-cases, inl, inr, arith, ltb,
}
use vlc_harmony.Base.Table.{lookup}
use vlc_harmony.Xcomponent.{Ready}
use vlc_harmony.Bridge.World.{player, Fn, ptr, Call, did, Host, World, PlayerEntry}
use vlc_harmony.Bridge.Windows.{
  Binding, gather, set_window, set_osd_window, is_negative, reload_track, resize, bind_osd,
  bind_picture, bind_ready, bind_all, unbind, unbind_all,
}

-- The window that libVLC got last for the picture of a player, if it got one.
abbrev pub window_of : ℕ → List Call → Option (Option ℕ)
window_of mp [] = none
window_of mp (did Fn.media_player_set_ohos_nativewindow_ptr (player p) (ptr win ∷ []) ∷ t) =
    let rest = window_of mp t in if nat_beq p mp then some win else rest
window_of mp (c ∷ t) = window_of mp t

-- A binding of the picture of a player is among those.
unfoldable pub has_picture : ℕ → List Binding → Bool
has_picture mp [] = false
has_picture mp (b ∷ bs) = (not b.osd && nat_beq b.mp mp) || has_picture mp bs

has_picture-append :
    (mp : ℕ) (a b : List Binding) → has_picture mp (a ++ b) ≡ (has_picture mp a || has_picture mp b)
unfolding has_picture
has_picture-append mp [] b = refl
has_picture-append mp (c ∷ a) b = ground (arith, has_picture-append mp a b)

pub has_picture-gather :
    (mp h : ℕ) (f : PlayerEntry → List Binding) (e : PlayerEntry) (m : List (ℕ × PlayerEntry))
    → lookup h m ≡ some e
    → has_picture mp (f e) ≡ true
    → has_picture mp (gather f m) ≡ true
unfolding gather lookup
has_picture-gather mp h f e [] at p = ground arith
has_picture-gather mp h f e ((i, d) ∷ m) at p =
    ground (arith, has_picture-append mp (f d) (gather f m), has_picture-gather mp h f e m)

module _ (host : Host) (mp : ℕ) (win : Option ℕ) where
  set_window-shows : (w : World) → window_of mp (set_window mp win w).trace ≡ some win
  set_window-shows w = ground arith

  -- The same window again, for any player.
  set_window-stays :
      (p : ℕ) (w : World)
      → window_of mp w.trace ≡ some win
      → window_of mp (set_window p win w).trace ≡ some win
  set_window-stays p w s = ground arith

  resize-stays :
      (p width height : ℕ) (w : World)
      → window_of mp w.trace ≡ some win
      → window_of mp (resize host p width height w).trace ≡ some win
  unfolding resize reload_track
  resize-stays p width height w s =
      elim (Bool-cases (host.resolves Fn.video_set_ohos_window_size)) [
        | inl c ↦ rw c s
        | inr c ↦
            rw c
              (elim (Bool-cases (is_negative (host.ask w.trace Fn.video_get_track (player p) []))) [
                | inl n ↦ rw n s
                | inr n ↦ rw n s
              ])
      ]

  -- The calls for an overlay are no such calls.
  set_osd_window-stays :
      (p : ℕ) (v : Option ℕ) (w : World)
      → window_of mp w.trace ≡ some win
      → window_of mp (set_osd_window host p v w).1.trace ≡ some win
  unfolding set_osd_window
  set_osd_window-stays p v w s =
      elim (Bool-cases (host.resolves Fn.media_player_set_ohos_osd_nativewindow_ptr)) [
        | inl c ↦ rw c s
        | inr c ↦ rw c s
      ]

  either-shows :
      (c : Bool) (a b : World)
      → window_of mp a.trace ≡ some win
      → window_of mp b.trace ≡ some win
      → window_of mp (if c then a else b).trace ≡ some win
  either-shows true a b p q = p
  either-shows false a b p q = q

  unbind-stays :
      (b : Binding) (w : World)
      → win ≡ none
      → window_of mp w.trace ≡ some win
      → window_of mp (unbind host b w).trace ≡ some win
  unfolding unbind
  unbind-stays b w null s =
      either-shows b.osd _ (set_window b.mp none w) (set_osd_window-stays b.mp none w s)
        (ground (arith, set_window-stays b.mp w s))

  unbind-shows :
      (b : Binding) (w : World)
      → win ≡ none
      → (not b.osd && nat_beq b.mp mp) ≡ true
      → window_of mp (unbind host b w).trace ≡ some win
  unfolding unbind
  unbind-shows b w null p = ground arith

  unbind_all-stays :
      (bs : List Binding) (w : World)
      → win ≡ none
      → window_of mp w.trace ≡ some win
      → window_of mp (unbind_all host bs w).trace ≡ some win
  unfolding unbind_all
  unbind_all-stays [] w null s = s
  unbind_all-stays (b ∷ bs) w null s =
      unbind_all-stays bs (unbind host b w) null (unbind-stays b w null s)

  pub unbind_all-shows :
      (bs : List Binding) (w : World)
      → win ≡ none
      → has_picture mp bs ≡ true
      → window_of mp (unbind_all host bs w).trace ≡ some win
  unfolding unbind_all has_picture
  unbind_all-shows [] w null p = ground arith
  unbind_all-shows (b ∷ bs) w null p = elim (Bool-cases (not b.osd && nat_beq b.mp mp)) [
    | inl c ↦ unbind_all-stays bs (unbind host b w) null (unbind-shows b w null c)
    | inr c ↦ unbind_all-shows bs (unbind host b w) null (rw c at p)
  ]

module _ (host : Host) (mp : ℕ) (r : Ready) where
  bind_osd-stays :
      (p : ℕ) (d : Bool × World)
      → window_of mp d.1.trace ≡ some r.win
      → window_of mp (bind_osd host r p d).trace ≡ some r.win
  bind_osd-stays p (true, w) s = s
  bind_osd-stays p (false, w) s = s

  bind_picture-stays :
      (b : Binding) (w : World)
      → window_of mp (set_window b.mp r.win w).trace ≡ some r.win
      → window_of mp (bind_picture host r b w).trace ≡ some r.win
  bind_picture-stays b w s =
      either-shows host mp r.win (b.reload && ltb 0 r.width && ltb 0 r.height) _ _
        (resize-stays host mp r.win b.mp r.width r.height (set_window b.mp r.win w) s) s

  bind_ready-stays :
      (b : Binding) (w : World)
      → window_of mp w.trace ≡ some r.win
      → window_of mp (bind_ready host r b w).trace ≡ some r.win
  unfolding bind_ready
  bind_ready-stays b w s =
      either-shows host mp r.win b.osd (bind_osd host r b.mp (set_osd_window host b.mp r.win w))
        (bind_picture host r b w)
        (bind_osd-stays b.mp (set_osd_window host b.mp r.win w)
          (set_osd_window-stays host mp r.win b.mp r.win w s))
        (bind_picture-stays b w (set_window-stays host mp r.win b.mp w s))

  bind_ready-shows :
      (b : Binding) (w : World)
      → (not b.osd && nat_beq b.mp mp) ≡ true
      → window_of mp (bind_ready host r b w).trace ≡ some r.win
  unfolding bind_ready
  bind_ready-shows b w p =
      let picture : b.osd ≡ false = ground arith in
      rw picture (bind_picture-stays b w (ground arith))

  bind_all-stays :
      (bs : List Binding) (w : World)
      → window_of mp w.trace ≡ some r.win
      → window_of mp (bind_all host r bs w).trace ≡ some r.win
  unfolding bind_all
  bind_all-stays [] w s = s
  bind_all-stays (b ∷ bs) w s = bind_all-stays bs (bind_ready host r b w) (bind_ready-stays b w s)

  pub bind_all-shows :
      (bs : List Binding) (w : World)
      → has_picture mp bs ≡ true
      → window_of mp (bind_all host r bs w).trace ≡ some r.win
  unfolding bind_all has_picture
  bind_all-shows [] w p = ground arith
  bind_all-shows (b ∷ bs) w p = elim (Bool-cases (not b.osd && nat_beq b.mp mp)) [
    | inl c ↦ bind_all-stays bs (bind_ready host r b w) (bind_ready-shows b w c)
    | inr c ↦ bind_all-shows bs (bind_ready host r b w) (rw c at p)
  ]
