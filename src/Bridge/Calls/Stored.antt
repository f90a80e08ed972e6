-- ===== src/Bridge/Calls/Stored.antt =====
-- A function of entry/src/main/cpp/vlc_napi.cpp that ends by storing an entry under a new handle, or by
-- giving back what an erased entry held.
use vlc_harmony.Base.{ℕ, ◌+◌, ◌≤◌, ◌<◌, ◌≡◌, refl, Option, none, some, arith}
use vlc_harmony.Bridge.World.{
  Ref, World, handle_mod, emit, free_call, Fn, Arg, LibEntry, MediaEntry, PlayerEntry, EqEntry,
  MediaListEntry, MediaDiscovererEntry, RendererItemEntry, RendererDiscovererEntry, store_lib,
  store_media, store_player, store_eq, store_list, store_md, store_renderer, store_rd,
}
use vlc_harmony.Bridge.Ledger.{
  Dead, InvOf, held, lib_holds, media_holds, player_holds, eq_holds, list_holds, md_holds,
  renderer_holds, rd_holds,
}
use vlc_harmony.Bridge.Ledger.Moves.{dropped-Inv, hand-Inv, trace-Inv}
use vlc_harmony.Bridge.Ledger.Tables.{
  store_lib-Inv, store_media-Inv, store_player-Inv, store_eq-Inv,
}
use vlc_harmony.Bridge.Ledger.Lists.{store_list-Inv, store_md-Inv, store_renderer-Inv, store_rd-Inv}
use vlc_harmony.Bridge.Calls.{drop}
use vlc_harmony.Bridge.Calls.Safety.{Good}
use vlc_harmony.Base.{List, ◌∷◌}

module _ ⦃dead : Dead⦄ where
  pub free_call-Inv :
      (x : Ref → ℕ) (w : World) (f : Fn) (args : List Arg)
      → InvOf x w
      → InvOf x (emit (free_call f args) w)
  free_call-Inv x w f args v =
      trace-Inv x w x (free_call f args ∷ w.trace) w.manager v v.balanced v.safe

  pub drop-Inv :
      (x : Ref → ℕ) (kind : ℕ → Ref) (o : Option ℕ) (w : World)
      → InvOf (λ r. held r kind o + x r) w
      → InvOf x (drop kind o w)
  drop-Inv x kind none w v = hand-Inv (λ r. omega arith) v
  drop-Inv x kind (some p) w v = dropped-Inv x w (kind p) v

  pub next_handle-drop :
      (kind : ℕ → Ref) (o : Option ℕ) (w : World) → (drop kind o w).next_handle ≡ w.next_handle
  next_handle-drop kind none w = refl
  next_handle-drop kind (some p) w = refl

  pub drop-Good :
      (w : World) (kind : ℕ → Ref) (o : Option ℕ) (w' : World)
      → w'.next_handle ≤ w.next_handle + 2
      → InvOf (λ r. held r kind o + 0) w'
      → Good w (drop kind o w')
  drop-Good w kind o w' n v =
      (drop-Inv (λ _. 0) kind o w' v, omega (arith, next_handle-drop kind o w'))

  module _ (w w' : World) (same : w'.next_handle ≡ w.next_handle)
      (room : w.next_handle + 3 < handle_mod) where
    pub store_lib-Good :
        (e : LibEntry) → InvOf (λ r. lib_holds r e + 0) w' → Good w (store_lib e w')
    unfolding store_lib
    store_lib-Good e v = (store_lib-Inv (λ _. 0) w' e (omega arith) v, omega arith)

    pub store_media-Good :
        (e : MediaEntry) → InvOf (λ r. media_holds r e + 0) w' → Good w (store_media e w')
    unfolding store_media
    store_media-Good e v = (store_media-Inv (λ _. 0) w' e (omega arith) v, omega arith)

    pub store_player-Good :
        (e : PlayerEntry) → InvOf (λ r. player_holds r e + 0) w' → Good w (store_player e w')
    unfolding store_player
    store_player-Good e v = (store_player-Inv (λ _. 0) w' e (omega arith) v, omega arith)

    pub store_eq-Good : (e : EqEntry) → InvOf (λ r. eq_holds r e + 0) w' → Good w (store_eq e w')
    unfolding store_eq
    store_eq-Good e v = (store_eq-Inv (λ _. 0) w' e (omega arith) v, omega arith)

    pub store_list-Good :
        (e : MediaListEntry) → InvOf (λ r. list_holds r e + 0) w' → Good w (store_list e w')
    unfolding store_list
    store_list-Good e v = (store_list-Inv (λ _. 0) w' e (omega arith) v, omega arith)

    pub store_md-Good :
        (e : MediaDiscovererEntry) → InvOf (λ r. md_holds r e + 0) w' → Good w (store_md e w')
    unfolding store_md
    store_md-Good e v = (store_md-Inv (λ _. 0) w' e (omega arith) v, omega arith)

    pub store_renderer-Good :
        (e : RendererItemEntry)
        → InvOf (λ r. renderer_holds r e + 0) w'
        → Good w (store_renderer e w')
    unfolding store_renderer
    store_renderer-Good e v = (store_renderer-Inv (λ _. 0) w' e (omega arith) v, omega arith)

    pub store_rd-Good :
        (e : RendererDiscovererEntry) → InvOf (λ r. rd_holds r e + 0) w' → Good w (store_rd e w')
    unfolding store_rd
    store_rd-Good e v = (store_rd-Inv (λ _. 0) w' e (omega arith) v, omega arith)
