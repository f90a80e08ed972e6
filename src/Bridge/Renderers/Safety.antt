-- ===== src/Bridge/Renderers/Safety.antt =====
-- The renderer discoverers of entry/src/main/cpp/vlc_napi.cpp, their events and their renderers keep
-- the account of references.
use vlc_harmony.Bridge.Renderers.Found.{rd_owned, for_both-Inv}
use vlc_harmony.Base.{
  ℕ, ◌+◌, ◌≤◌, ◌<◌, ◌≡◌, refl, ap, ◌∙◌, String, Option, none, some, List, [], ◌∷◌, nat_eq, arith,
}
use vlc_harmony.Base.Table.{lookup, insert, erase, total_found, lookup-insert}
use vlc_harmony.Bridge.World.{
  Ref, inst, renderer, renderer_discoverer, tsfn, js_ref, rd_user, Fn, Arg, did, took, Host, World,
  RendererItemEntry, RendererDiscovererEntry, emit, handle_mod, store_rd,
}
use vlc_harmony.Bridge.Ledger.{
  Dead, Inv, InvOf, hits, hits_self, held, owners, renderer_holds, rd_user_holds, did-Inv,
}
use vlc_harmony.Bridge.Ledger.Moves.{took-Inv, dropped-Inv, hand-Inv}
use vlc_harmony.Bridge.Ledger.Lists.{store_rd-Inv, erase_renderer-Inv, erase_rd-Inv}
use vlc_harmony.Bridge.Ledger.Threads.{store_rd_user-Inv, erase_rd_user-Inv}
use vlc_harmony.Bridge.Ledger.Owned.{inst_of-owned, rd_of-owned}
use vlc_harmony.Bridge.Calls.{drop}
use vlc_harmony.Bridge.Calls.Safety.{Good, Keeps, need-Good, unchanged, call-Good}
use vlc_harmony.Bridge.Calls.Stored.{drop-Inv, next_handle-drop}
use vlc_harmony.Bridge.Windows.Safety.{Kept}
use vlc_harmony.Bridge.Renderers.{
  renderer_discoverer_list, rd_event_manager, attach_if, enter_rd, renderer_discoverer_create,
  detach_if, free_box, free_item, free_items, free_rd, renderer_discoverer_release,
  renderer_discoverer_start, renderer_discoverer_stop, item_of, row_first, item_rows,
  renderer_discoverer_get_items, renderer_item_release,
}

box_owned :
    (h : ℕ) (w : World) (u : ℕ) → lookup h w.rd_event_users ≡ some u → 1 ≤ owners (rd_user u) w
box_owned h w u at =
    omega (
      arith,
      total_found (rd_user_holds (rd_user u)) h u w.rd_event_users at,
      hits_self (rd_user u),
    )

module _ ⦃dead : Dead⦄ where
  module _ (host : Host) where
    attach_if-Kept :
        (o : Option ℕ) (rd box : ℕ) (w : World)
        → 1 ≤ owners (renderer_discoverer rd) w
        → 1 ≤ owners (rd_user box) w
        → Inv w
        → Kept (λ _. 0) w (attach_if host o rd box w)
    unfolding attach_if
    attach_if-Kept none rd box w own has v = (v, refl)
    attach_if-Kept (some em) rd box w own has v =
        (for_both-Inv Fn.event_attach rd box w own has v, refl)

    enter_rd-Good :
        (lib rd : ℕ) (w : World)
        → w.next_handle + 3 < handle_mod
        → InvOf (λ r. hits r (renderer_discoverer rd) + 0) w
        → Good w (enter_rd host lib rd w)
    unfolding enter_rd store_rd rd_event_manager
    enter_rd-Good lib rd w room v =
        let e : RendererDiscovererEntry = record {
          rd = some rd;
          lib_handle = lib;
          item_handles = [];
          tsfn = none;
          js_callback_ref = none;
        } in
        let h = w.next_handle in
        let v₁ = store_rd-Inv (λ _. 0) w e (omega arith) (hand-Inv (λ r. omega arith) v) in
        let w₁ = store_rd e w in
        let free = v.rd_users.new h (omega arith) in
        let w₂ = emit (took (rd_user h)) w₁ in
        let v₂ =
          store_rd_user-Inv (λ _. 0) w₂ h (omega arith) free
            (took-Inv (λ _. 0) w₁ (rd_user h) v₁) in
        let w₃ : World = record w₂ { rd_event_users = insert h h w₂.rd_event_users } in
        let own = rd_owned h e w₃ rd (ground (arith, lookup-insert h h e w.rds)) refl in
        let v₃ =
          did-Inv (λ _. 0) w₃ v₂ Fn.renderer_discoverer_event_manager (renderer_discoverer rd) []
            (omega arith) in
        let (v₄, n) =
          attach_if-Kept (rd_event_manager host rd w₃).0 rd h (rd_event_manager host rd w₃).1 own
            (box_owned h w₃ h (ground (arith, lookup-insert h h h w₂.rd_event_users))) v₃ in
        (v₄, omega (arith, n))

    detach_if-Inv :
        (o : Option ℕ) (rd box : ℕ) (w : World)
        → 1 ≤ owners (renderer_discoverer rd) w
        → 1 ≤ owners (rd_user box) w
        → Inv w
        → Kept (λ _. 0) w (detach_if host o rd box w)
          × ((detach_if host o rd box w).rd_event_users ≡ w.rd_event_users)
          × ((detach_if host o rd box w).rds ≡ w.rds)
    unfolding detach_if
    detach_if-Inv none rd box w own has v = ((v, refl), refl, refl)
    detach_if-Inv (some em) rd box w own has v =
        ((for_both-Inv Fn.event_detach rd box w own has v, refl), refl, refl)

    free_box-Inv :
        (h : ℕ) (box rd : Option ℕ) (w : World)
        → lookup h w.rd_event_users ≡ box
        → ((p : ℕ) → rd ≡ some p → 1 ≤ owners (renderer_discoverer p) w)
        → Inv w
        → Kept (λ _. 0) w (free_box host h box rd w) × ((free_box host h box rd w).rds ≡ w.rds)
    unfolding free_box rd_event_manager
    free_box-Inv h none rd w at own v = ((v, refl), refl)
    free_box-Inv h (some box) none w at own v = ((v, refl), refl)
    free_box-Inv h (some box) (some rd) w at own v =
        let w₀ = (rd_event_manager host rd w).1 in
        let v₀ =
          did-Inv (λ _. 0) w v Fn.renderer_discoverer_event_manager (renderer_discoverer rd) []
            (omega (arith, own rd refl)) in
        let ((v₁, n), u, r) =
          detach_if-Inv (rd_event_manager host rd w).0 rd box w₀ (own rd refl)
            (box_owned h w box at) v₀ in
        let w₁ = detach_if host (rd_event_manager host rd w).0 rd box w₀ in
        (
          (
            dropped-Inv (λ _. 0) (record w₁ { rd_event_users = erase h w₁.rd_event_users })
                (rd_user box) (erase_rd_user-Inv (λ _. 0) w₁ h box (ap (lookup h) u ∙ at) v₁),
            n,
          ),
          r,
        )

  rds-drop : (kind : ℕ → Ref) (o : Option ℕ) (w : World) → (drop kind o w).rds ≡ w.rds
  rds-drop kind none w = refl
  rds-drop kind (some p) w = refl

  free_item-Kept :
      (h : ℕ) (o : Option RendererItemEntry) (w : World)
      → lookup h w.renderers ≡ o
      → Inv w
      → Kept (λ _. 0) w (free_item h o w) × ((free_item h o w).rds ≡ w.rds)
  unfolding free_item
  free_item-Kept h none w at v = ((v, refl), refl)
  free_item-Kept h (some e) w at v =
      let w₁ : World = record w { renderers = erase h w.renderers } in
      (
        (
          drop-Inv (λ _. 0) renderer e.item w₁ (erase_renderer-Inv (λ _. 0) w h e at v),
          next_handle-drop renderer e.item w₁,
        ),
        rds-drop renderer e.item w₁,
      )

  free_items-Kept :
      (hs : List ℕ) (w : World)
      → Inv w
      → Kept (λ _. 0) w (free_items hs w) × ((free_items hs w).rds ≡ w.rds)
  unfolding free_items
  free_items-Kept [] w v = ((v, refl), refl)
  free_items-Kept (h ∷ hs) w v =
      let ((v₁, n₁), r₁) = free_item-Kept h (lookup h w.renderers) w refl v in
      let ((v₂, n₂), r₂) = free_items-Kept hs _ v₁ in ((v₂, n₂ ∙ n₁), r₂ ∙ r₁)

  free_rd-Kept :
      (h : ℕ) (e : RendererDiscovererEntry) (w : World)
      → lookup h w.rds ≡ some e
      → Inv w
      → Kept (λ _. 0) w (free_rd h e w)
  unfolding free_rd
  free_rd-Kept h e w at v =
      let x : Ref → ℕ = λ r. held r renderer_discoverer e.rd + 0 in
      let y : Ref → ℕ = λ r. held r js_ref e.js_callback_ref + x r in
      let w₀ : World = record w { rds = erase h w.rds } in
      let w₁ = drop tsfn e.tsfn w₀ in
      let w₂ = drop js_ref e.js_callback_ref w₁ in
      (
        drop-Inv (λ _. 0) renderer_discoverer e.rd w₂
            (drop-Inv x js_ref e.js_callback_ref w₁ (
              drop-Inv y tsfn e.tsfn w₀
                (hand-Inv (λ r. omega arith) (erase_rd-Inv (λ _. 0) w h e at v)))),
        next_handle-drop renderer_discoverer e.rd w₂
            ∙ (next_handle-drop js_ref e.js_callback_ref w₁ ∙ next_handle-drop tsfn e.tsfn w₀),
      )

  module _ (host : Host) where
    owned_item :
        (h : ℕ) (o : Option RendererItemEntry) (w : World) (p : ℕ)
        → lookup h w.renderers ≡ o
        → item_of host o ≡ some p
        → 1 ≤ owners (renderer p) w
    owned_item h none w p at is = cc
    owned_item h (some e) w p at is = omega (
      arith,
      total_found (renderer_holds (renderer p)) h e w.renderers at,
      ap (held (renderer p) renderer) is,
      hits_self (renderer p),
    )

    pub renderer_discoverer_list-Keeps :
        (args : List ℕ) → Keeps (renderer_discoverer_list host args)
    unfolding renderer_discoverer_list
    renderer_discoverer_list-Keeps args w v room = need-Good w _ _ _ (unchanged w v) λ lib a.
        need-Good w _ _ _ (unchanged w v) λ i at. call-Good _ _ _ w v (inst_of-owned lib w at)

    pub renderer_discoverer_create-Keeps :
        (args : List ℕ) → Keeps (renderer_discoverer_create host args)
    unfolding renderer_discoverer_create
    renderer_discoverer_create-Keeps args w v room = need-Good w _ _ _ (unchanged w v) λ lib a.
        need-Good w _ _ _ (unchanged w v) λ i at.
          let v₁ =
            did-Inv (λ _. 0) w v Fn.renderer_discoverer_new (inst i) _
              (omega (arith, inst_of-owned lib w at)) in
          need-Good w _ _ _ (v₁, omega arith)
            λ rd made.
              enter_rd-Good host lib rd _ room (took-Inv (λ _. 0) _ (renderer_discoverer rd) v₁)

    pub renderer_discoverer_release-Keeps :
        (args : List ℕ) → Keeps (renderer_discoverer_release host args)
    unfolding renderer_discoverer_release
    renderer_discoverer_release-Keeps args w v room = need-Good w _ _ _ (unchanged w v) λ h a.
        need-Good w _ _ _ (unchanged w v) λ e at.
          let ((v₁, n₁), r₁) =
            free_box-Inv host h _ e.rd w refl (λ p is. rd_owned h e w p at is) v in
          let ((v₂, n₂), r₂) = free_items-Kept e.item_handles _ v₁ in
          let (v₃, n₃) = free_rd-Kept h e _ (ap (lookup h) (r₂ ∙ r₁) ∙ at) v₂ in
          (v₃, omega (arith, n₁, n₂, n₃))

    pub renderer_discoverer_start-Keeps :
        (args : List ℕ) → Keeps (renderer_discoverer_start host args)
    unfolding renderer_discoverer_start
    renderer_discoverer_start-Keeps args w v room =
        need-Good w _ _ _ (unchanged w v)
          λ h a. need-Good w _ _ _ (unchanged w v) λ rd at. call-Good _ _ _ w v (rd_of-owned h w at)

    pub renderer_discoverer_stop-Keeps :
        (args : List ℕ) → Keeps (renderer_discoverer_stop host args)
    unfolding renderer_discoverer_stop
    renderer_discoverer_stop-Keeps args w v room =
        need-Good w _ _ _ (unchanged w v)
          λ h a. need-Good w _ _ _ (unchanged w v) λ rd at. call-Good _ _ _ w v (rd_of-owned h w at)

    renderer_at :
        (h : ℕ) (w : World) (p : ℕ)
        → item_of host (lookup h w.renderers) ≡ some p
        → 1 ≤ owners (renderer p) w
    renderer_at h w p is = owned_item h (lookup h w.renderers) w p refl is

    row_first-Kept :
        (h : ℕ) (o : Option ℕ) (rest : World → List (List (String × Arg)) × World) (w : World)
        → ((p : ℕ) → o ≡ some p → 1 ≤ owners (renderer p) w)
        → ((u : World) → Inv u → Kept (λ _. 0) u (rest u).1)
        → Inv w
        → Kept (λ _. 0) w (row_first host h o rest w).1
    unfolding row_first
    row_first-Kept h none rest w own k v = k w v
    row_first-Kept h (some item) rest w own k v =
        let o = own item refl in
        let v₁ = did-Inv (λ _. 0) w v Fn.renderer_item_name (renderer item) [] (omega arith) in
        let v₂ =
          did-Inv (λ _. 0) (emit (did Fn.renderer_item_name (renderer item) []) w) v₁
            Fn.renderer_item_type (renderer item) [] (omega arith) in
        k _ v₂

    item_rows-Kept : (hs : List ℕ) (w : World) → Inv w → Kept (λ _. 0) w (item_rows host hs w).1
    unfolding item_rows
    item_rows-Kept [] w v = (v, refl)
    item_rows-Kept (h ∷ hs) w v =
        row_first-Kept h (item_of host (lookup h w.renderers)) (λ u. item_rows host hs u) w
          (renderer_at h w) (λ u. item_rows-Kept hs u) v

    pub renderer_discoverer_get_items-Keeps :
        (args : List ℕ) → Keeps (renderer_discoverer_get_items host args)
    unfolding renderer_discoverer_get_items
    renderer_discoverer_get_items-Keeps args w v room = need-Good w _ _ _ (unchanged w v) λ h a.
        need-Good w _ _ _ (unchanged w v)
          λ e at. let (v₁, n) = item_rows-Kept e.item_handles w v in (v₁, omega (arith, n))

    pub renderer_item_release-Keeps : (args : List ℕ) → Keeps (renderer_item_release host args)
    unfolding renderer_item_release
    renderer_item_release-Keeps args w v room = need-Good w _ _ _ (unchanged w v) λ h a.
        let ((v₁, n), r) = free_item-Kept h (lookup h w.renderers) w refl v in
        (v₁, omega (arith, n))
