-- ===== src/Bridge/Renderers/Found.antt =====
-- The events that a list of renderers of entry/src/main/cpp/vlc_napi.cpp gets keep the account of
-- references, each renderer found with a handle of its own.
use vlc_harmony.Base.{
  ℕ, ◌+◌, ◌≤◌, ◌<◌, ◌≡◌, refl, ap, Option, none, some, [], ◌∷◌, nat_eq, ℤ, arith,
}
use vlc_harmony.Base.Table.{lookup, insert, total_found, lookup-insert}
use vlc_harmony.Bridge.World.{
  renderer, renderer_discoverer, rd_user, tsfn, Fn, text, did_with, took, Host, World,
  RendererItemEntry, RendererDiscovererEntry, emit, handle_mod, store_renderer,
}
use vlc_harmony.Bridge.Ledger.{Dead, Inv, hits_self, held, owners, rd_holds, did_with-Inv}
use vlc_harmony.Bridge.Ledger.Moves.{took-Inv, hand-Inv}
use vlc_harmony.Bridge.Ledger.Lists.{store_renderer-Inv}
use vlc_harmony.Bridge.Ledger.Threads.{move_rd-Inv}
use vlc_harmony.Bridge.Calls.Safety.{Good}
use vlc_harmony.Bridge.Events.Safety.{emit_player_event-Inv}
use vlc_harmony.Bridge.Renderers.{
  RendererEvent, added, deleted, other, with_item, for_both, add_item, renderer_event,
  on_renderer_event,
}

module _ ⦃dead : Dead⦄ where
  pub rd_owned :
      (h : ℕ) (e : RendererDiscovererEntry) (w : World) (p : ℕ)
      → lookup h w.rds ≡ some e
      → e.rd ≡ some p
      → 1 ≤ owners (renderer_discoverer p) w
  rd_owned h e w p at is = omega (
    arith,
    total_found (rd_holds (renderer_discoverer p)) h e w.rds at,
    ap (held (renderer_discoverer p) renderer_discoverer) is,
    hits_self (renderer_discoverer p),
  )

  pub rd_tsfn_owned :
      (h : ℕ) (e : RendererDiscovererEntry) (w : World) (p : ℕ)
      → lookup h w.rds ≡ some e
      → e.tsfn ≡ some p
      → 1 ≤ owners (tsfn p) w
  rd_tsfn_owned h e w p at is = omega (
    arith,
    total_found (rd_holds (tsfn p)) h e w.rds at,
    ap (held (tsfn p) tsfn) is,
    hits_self (tsfn p),
  )

  pub for_both-Inv :
      (f : Fn) (rd box : ℕ) (w : World)
      → 1 ≤ owners (renderer_discoverer rd) w
      → 1 ≤ owners (rd_user box) w
      → Inv w
      → Inv (for_both f rd box w)
  for_both-Inv f rd box w own has v =
      let r = renderer_discoverer rd in
      let u = rd_user box in
      let a = text "RendererDiscovererItemAdded" ∷ [] in
      let b = text "RendererDiscovererItemDeleted" ∷ [] in
      let v₁ = did_with-Inv (λ _. 0) w v f r u a (omega arith) (omega arith) in
      did_with-Inv (λ _. 0) (emit (did_with f r u a) w) v₁ f r u b (omega arith) (omega arith)

  module _ (host : Host) where
    add_item-Good :
        (h item : ℕ) (e : RendererDiscovererEntry) (w : World)
        → w.next_handle + 3 < handle_mod
        → lookup h w.rds ≡ some e
        → Inv w
        → Good w (add_item host h item e w)
    unfolding add_item store_renderer
    add_item-Good h item e w room at v =
        let i : RendererItemEntry = record { item = some item; rd_handle = h } in
        let w₀ = emit (took (renderer item)) w in
        let v₁ =
          store_renderer-Inv (λ _. 0) w₀ i (omega arith)
            (hand-Inv (λ r. omega arith) (took-Inv (λ _. 0) w (renderer item) v)) in
        let w₁ = store_renderer i w₀ in
        let w₂ : World = record w₁ { rds = insert h (with_item w.next_handle e) w₁.rds } in
        let v₂ =
          move_rd-Inv (λ _. 0) (λ _. 0) w₁ h (with_item w.next_handle e) e at (λ r. refl) v₁ in
        let (v₃, n) =
          emit_player_event-Inv e.tsfn w.next_handle "rendererItemAdded"
            (host.double_of_int (ℤ.pos w.next_handle)) w₂
            (λ p is.
              rd_tsfn_owned h (with_item w.next_handle e) w₂ p
                (ground (arith, lookup-insert h h (with_item w.next_handle e) w.rds)) is)
            v₂ in
        (v₃, omega (arith, n))

    event-Good :
        (h : ℕ) (event : RendererEvent) (o : Option RendererDiscovererEntry) (w : World)
        → w.next_handle + 3 < handle_mod
        → lookup h w.rds ≡ o
        → Inv w
        → Good w (renderer_event host h event o w)
    unfolding renderer_event
    event-Good h event none w room at v = (v, omega arith)
    event-Good h (added none) (some e) w room at v = (v, omega arith)
    event-Good h (added (some item)) (some e) w room at v = add_item-Good h item e w room at v
    event-Good h deleted (some e) w room at v =
        let (v₁, n) =
          emit_player_event-Inv e.tsfn 0 "rendererItemDeleted" 0 w
            (λ p is. rd_tsfn_owned h e w p at is) v in
        (v₁, omega (arith, n))
    event-Good h other (some e) w room at v = (v, omega arith)

    pub on_renderer_event-Good :
        (h : ℕ) (event : RendererEvent) (w : World)
        → w.next_handle + 3 < handle_mod
        → Inv w
        → Good w (on_renderer_event host h event w)
    unfolding on_renderer_event
    on_renderer_event-Good h event w room v = event-Good h event (lookup h w.rds) w room refl v
