-- ===== src/Bridge/Lists/Safety.antt =====
-- The media list and discoverer functions of entry/src/main/cpp/vlc_napi.cpp keep the account of
-- references.
use vlc_harmony.Base.{
  ℕ, ◌+◌, ◌≤◌, ◌<◌, ◌≡◌, refl, Bool-cases, inl, inr, Option, none, some, List, ◌∷◌, [], arith,
  nat_eq, nat_beq,
}
use vlc_harmony.Base.Table.{lookup}
use vlc_harmony.Bridge.World.{
  Ref, inst, media, media_list, discoverer, did, Fn, int, text, Host, World, MediaListEntry, emit,
  took, handle_mod, store_list, store_md,
}
use vlc_harmony.Bridge.Ledger.{Dead, InvOf, hits, hits_self, did-Inv}
use vlc_harmony.Bridge.Ledger.Moves.{took-Inv, hand-Inv}
use vlc_harmony.Bridge.Ledger.Lists.{erase_list-Inv, erase_md-Inv, store_list-Inv, store_md-Inv}
use vlc_harmony.Bridge.Ledger.Owned.{inst_of-owned, list_of-owned, media_of-owned, md_of-owned}
use vlc_harmony.Bridge.Calls.{string_at}
use vlc_harmony.Bridge.Calls.Safety.{
  Good, need_any, Keeps, need-Good, unchanged, call-Good, call_with-Good,
}
use vlc_harmony.Bridge.Calls.Stored.{
  drop-Inv, next_handle-drop, drop-Good, store_list-Good, store_media-Good,
}
use vlc_harmony.Bridge.Lists.{
  media_list_create, media_list_release, media_list_count, media_list_add_media,
  media_list_remove_index, media_list_item_at, share_list, enter_md, drop_list,
  media_discoverer_create, release_list, media_discoverer_release, media_discoverer_start,
  media_discoverer_stop, media_discoverer_media_list,
}

module _ ⦃dead : Dead⦄ where
  shared_list :
      (x : Ref → ℕ) (l : ℕ) (w w' : World)
      → w'.next_handle ≡ w.next_handle
      → w.next_handle + 3 < handle_mod
      → InvOf x w'
      → InvOf x (store_list (record { list = some l }) (emit (took (media_list l)) w'))
        × ((store_list (record { list = some l }) (emit (took (media_list l)) w')).next_handle
            ≤ w.next_handle + 1)
  unfolding store_list
  shared_list x l w w' e room v = (
    store_list-Inv x _ (record { list = some l }) (omega arith) (took-Inv x w' (media_list l) v),
    omega arith,
  )

  released :
      (x : Ref → ℕ) (h : ℕ) (w : World) (o : Option MediaListEntry)
      → lookup h w.lists ≡ o
      → InvOf x w
      → InvOf x (drop_list h o w) × ((drop_list h o w).next_handle ≡ w.next_handle)
  released x h w none at v = (v, refl)
  released x h w (some e) at v = (
    drop-Inv x media_list e.list _ (erase_list-Inv x w h e at v),
    next_handle-drop media_list e.list _,
  )

  module _ (host : Host) (args : List ℕ) where
    pub media_list_create-Keeps : Keeps (media_list_create host args)
    unfolding media_list_create
    media_list_create-Keeps w v room = need-Good w _ _ _ (unchanged w v) λ lib e.
        need-Good w _ _ _ (unchanged w v) λ i at.
          let v₁ =
            did-Inv (λ _. 0) w v Fn.media_list_new (inst i) []
              (omega (arith, inst_of-owned lib w at)) in
          need-Good w _ _ _ (v₁, omega arith)
            λ l made.
              store_list-Good w _ refl room _
                (hand-Inv (λ r. omega arith) (took-Inv (λ _. 0) _ (media_list l) v₁))

    pub media_list_release-Keeps : Keeps (media_list_release host args)
    unfolding media_list_release
    media_list_release-Keeps w v room = need-Good w _ _ _ (unchanged w v) λ h e.
        need-Good w _ _ _ (unchanged w v) λ entry at.
          drop-Good w media_list entry.list _ (omega arith) (erase_list-Inv (λ _. 0) w h entry at v)

    pub media_list_count-Keeps : Keeps (media_list_count host args)
    unfolding media_list_count
    media_list_count-Keeps w v room =
        need-Good w _ _ _ (unchanged w v) λ a e.
          need-Good w _ _ _ (unchanged w v) λ p at. call-Good _ _ _ w v (list_of-owned a w at)

    pub media_list_add_media-Keeps : Keeps (media_list_add_media host args)
    unfolding media_list_add_media
    media_list_add_media-Keeps w v room = need-Good w _ _ _ (unchanged w v) λ a e.
        need-Good w _ _ _ (unchanged w v) λ p at.
          need-Good w _ _ _ (unchanged w v)
            λ m is. call_with-Good _ _ _ _ w v (list_of-owned a.0 w at) (media_of-owned a.1 w is)

    pub media_list_remove_index-Keeps : Keeps (media_list_remove_index host args)
    unfolding media_list_remove_index
    media_list_remove_index-Keeps w v room = need-Good w _ _ _ (unchanged w v) λ a e.
        need-Good w _ _ _ (unchanged w v) λ p at. call-Good _ _ _ w v (list_of-owned a.0 w at)

    pub media_list_item_at-Keeps : Keeps (media_list_item_at host args)
    unfolding media_list_item_at
    media_list_item_at-Keeps w v room = need-Good w _ _ _ (unchanged w v) λ a e.
        need-Good w _ _ _ (unchanged w v) λ l at.
          let v₁ =
            did-Inv (λ _. 0) w v Fn.media_list_item_at_index (media_list l) (int a.1 ∷ [])
              (omega (arith, list_of-owned a.0 w at)) in
          need-Good w _ _ _ (v₁, omega arith)
            λ m made.
              store_media-Good w _ refl room _
                (hand-Inv (λ r. omega arith) (took-Inv (λ _. 0) _ (media m) v₁))

    share_list-Inv :
        (md : ℕ) (w : World)
        → w.next_handle + 3 < handle_mod
        → InvOf (λ r. hits r (discoverer md) + 0) w
        → InvOf (λ r. hits r (discoverer md) + 0) (share_list host md w).1
          × ((share_list host md w).1.next_handle ≤ w.next_handle + 1)
    unfolding share_list
    share_list-Inv md w room v =
        let x : Ref → ℕ = λ r. hits r (discoverer md) + 0 in
        let v₁ =
          did-Inv x w v Fn.media_discoverer_media_list (discoverer md) []
            (omega (arith, hits_self (discoverer md))) in
        need_any (λ u. InvOf x u × (u.next_handle ≤ w.next_handle + 1)) _ _ _ (v₁, omega arith)
          λ l made. shared_list x l w _ refl room v₁

    enter_md-Good :
        (md : ℕ) (w : World) (shared : ℕ × World)
        → w.next_handle + 3 < handle_mod
        → InvOf (λ r. hits r (discoverer md) + 0) shared.1
        → shared.1.next_handle ≤ w.next_handle + 1
        → Good w (enter_md host md shared).1
    unfolding store_md
    enter_md-Good md w (lh, w') room v n = (
      store_md-Inv (λ _. 0) w' (record { md = some md; list_handle = lh }) (omega arith) v,
      omega arith,
    )

    pub media_discoverer_create-Keeps : Keeps (media_discoverer_create host args)
    unfolding media_discoverer_create
    media_discoverer_create-Keeps w v room = need-Good w _ _ _ (unchanged w v) λ lib e.
        need-Good w _ _ _ (unchanged w v) λ i at.
          let name = text (string_at host 1 args) ∷ [] in
          let v₁ =
            did-Inv (λ _. 0) w v Fn.media_discoverer_new (inst i) name
              (omega (arith, inst_of-owned lib w at)) in
          let w₁ = emit (did Fn.media_discoverer_new (inst i) name) w in
          need-Good w (host.make w.trace Fn.media_discoverer_new name) _ _ (v₁, omega arith)
            λ md made.
              let w₂ = emit (took (discoverer md)) w₁ in
              let (v₂, n) = share_list-Inv md w₂ room (took-Inv (λ _. 0) w₁ (discoverer md) v₁) in
              enter_md-Good md w (share_list host md w₂) room v₂ n

    release_list-Inv :
        (x : Ref → ℕ) (h : ℕ) (w : World)
        → InvOf x w
        → InvOf x (release_list host h w) × ((release_list host h w).next_handle ≡ w.next_handle)
    unfolding release_list
    release_list-Inv x h w v = elim (Bool-cases (nat_beq h 0)) [
      | inl e ↦ rw e (v, refl)
      | inr e ↦ rw e (released x h w (lookup h w.lists) refl v)
    ]

    pub media_discoverer_release-Keeps : Keeps (media_discoverer_release host args)
    unfolding media_discoverer_release
    media_discoverer_release-Keeps w v room = need-Good w _ _ _ (unchanged w v) λ h e.
        need-Good w _ _ _ (unchanged w v) λ entry at.
          let (v₁, n) =
            release_list-Inv _ entry.list_handle _ (erase_md-Inv (λ _. 0) w h entry at v) in
          drop-Good w discoverer entry.md _ (omega arith) v₁

    pub media_discoverer_start-Keeps : Keeps (media_discoverer_start host args)
    unfolding media_discoverer_start
    media_discoverer_start-Keeps w v room =
        need-Good w _ _ _ (unchanged w v)
          λ a e. need-Good w _ _ _ (unchanged w v) λ p at. call-Good _ _ _ w v (md_of-owned a w at)

    pub media_discoverer_stop-Keeps : Keeps (media_discoverer_stop host args)
    unfolding media_discoverer_stop
    media_discoverer_stop-Keeps w v room =
        need-Good w _ _ _ (unchanged w v)
          λ a e. need-Good w _ _ _ (unchanged w v) λ p at. call-Good _ _ _ w v (md_of-owned a w at)

    pub media_discoverer_media_list-Keeps : Keeps (media_discoverer_media_list host args)
    unfolding media_discoverer_media_list
    media_discoverer_media_list-Keeps w v room =
        need-Good w _ _ _ (unchanged w v)
          λ a e. need-Good w _ _ _ (unchanged w v) λ p at. unchanged w v
