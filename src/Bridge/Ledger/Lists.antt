-- ===== src/Bridge/Ledger/Lists.antt =====
-- What storing an entry in a table of entry/src/main/cpp/vlc_napi.cpp, and erasing one, does to the
-- account of references: entries carry references from the function's hands into the table and back.
use vlc_harmony.Base.{ℕ, ◌+◌, ◌<◌, ◌≡◌, refl, some, nat_eq, arith}
use vlc_harmony.Base.Table.{
  lookup, erase, lookup_unused, uses-insert, uses-erase, total-insert, total-erase,
}
use vlc_harmony.Bridge.World.{
  Ref, World, MediaListEntry, MediaDiscovererEntry, RendererItemEntry, RendererDiscovererEntry,
  bump, handle_mod, store_list, store_md, store_renderer, store_rd,
}
use vlc_harmony.Bridge.Ledger.{
  Dead, list_holds, md_holds, renderer_holds, rd_holds, InvOf, Once-mono,
}
use vlc_harmony.Bridge.Ledger.Moves.{Handles-add, Handles-less}

module _ ⦃dead : Dead⦄ where
  module _ (x : Ref → ℕ) (w : World) where
    pub store_list-Inv :
        (e : MediaListEntry)
        → w.next_handle + 2 < handle_mod
        → InvOf (λ r. list_holds r e + x r) w
        → InvOf x (store_list e w)
    unfolding store_list
    store_list-Inv e room v =
        let n = w.next_handle in
        let fresh = lookup_unused n w.lists (omega (arith, v.handles.new n (omega arith))) in
        record {
          handles =
              Handles-add w _ room refl (λ h. omega (arith, uses-insert n h e w.lists fresh))
                v.handles;
          users = Once-mono n (bump n) w.event_users (omega arith) v.users;
          rd_users = Once-mono n (bump n) w.rd_event_users (omega arith) v.rd_users;
          seekers = v.seekers;
          stops = v.stops;
          balanced =
              λ r. omega (arith, v.balanced r, total-insert (list_holds r) n e w.lists fresh);
          safe = v.safe;
        }

    pub erase_list-Inv :
        (h : ℕ) (e : MediaListEntry)
        → lookup h w.lists ≡ some e
        → InvOf x w
        → InvOf (λ r. list_holds r e + x r) (record w { lists = erase h w.lists })
    erase_list-Inv h e found v =
        let once = v.handles.one h in
        record {
          handles = Handles-less w _ refl (λ k. ground (arith, uses-erase h k w.lists)) v.handles;
          users = v.users;
          rd_users = v.rd_users;
          seekers = v.seekers;
          stops = v.stops;
          balanced = λ r.
              omega
                (arith, v.balanced r, total-erase (list_holds r) h e w.lists found (omega arith));
          safe = v.safe;
        }

    pub store_md-Inv :
        (e : MediaDiscovererEntry)
        → w.next_handle + 2 < handle_mod
        → InvOf (λ r. md_holds r e + x r) w
        → InvOf x (store_md e w)
    unfolding store_md
    store_md-Inv e room v =
        let n = w.next_handle in
        let fresh = lookup_unused n w.mds (omega (arith, v.handles.new n (omega arith))) in
        record {
          handles =
              Handles-add w _ room refl (λ h. omega (arith, uses-insert n h e w.mds fresh))
                v.handles;
          users = Once-mono n (bump n) w.event_users (omega arith) v.users;
          rd_users = Once-mono n (bump n) w.rd_event_users (omega arith) v.rd_users;
          seekers = v.seekers;
          stops = v.stops;
          balanced = λ r. omega (arith, v.balanced r, total-insert (md_holds r) n e w.mds fresh);
          safe = v.safe;
        }

    pub erase_md-Inv :
        (h : ℕ) (e : MediaDiscovererEntry)
        → lookup h w.mds ≡ some e
        → InvOf x w
        → InvOf (λ r. md_holds r e + x r) (record w { mds = erase h w.mds })
    erase_md-Inv h e found v =
        let once = v.handles.one h in
        record {
          handles = Handles-less w _ refl (λ k. ground (arith, uses-erase h k w.mds)) v.handles;
          users = v.users;
          rd_users = v.rd_users;
          seekers = v.seekers;
          stops = v.stops;
          balanced = λ r.
              omega (arith, v.balanced r, total-erase (md_holds r) h e w.mds found (omega arith));
          safe = v.safe;
        }

    pub store_renderer-Inv :
        (e : RendererItemEntry)
        → w.next_handle + 2 < handle_mod
        → InvOf (λ r. renderer_holds r e + x r) w
        → InvOf x (store_renderer e w)
    unfolding store_renderer
    store_renderer-Inv e room v =
        let n = w.next_handle in
        let fresh = lookup_unused n w.renderers (omega (arith, v.handles.new n (omega arith))) in
        record {
          handles =
              Handles-add w _ room refl (λ h. omega (arith, uses-insert n h e w.renderers fresh))
                v.handles;
          users = Once-mono n (bump n) w.event_users (omega arith) v.users;
          rd_users = Once-mono n (bump n) w.rd_event_users (omega arith) v.rd_users;
          seekers = v.seekers;
          stops = v.stops;
          balanced = λ r.
              omega (arith, v.balanced r, total-insert (renderer_holds r) n e w.renderers fresh);
          safe = v.safe;
        }

    pub erase_renderer-Inv :
        (h : ℕ) (e : RendererItemEntry)
        → lookup h w.renderers ≡ some e
        → InvOf x w
        → InvOf (λ r. renderer_holds r e + x r) (record w { renderers = erase h w.renderers })
    erase_renderer-Inv h e found v =
        let once = v.handles.one h in
        record {
          handles =
              Handles-less w _ refl (λ k. ground (arith, uses-erase h k w.renderers)) v.handles;
          users = v.users;
          rd_users = v.rd_users;
          seekers = v.seekers;
          stops = v.stops;
          balanced = λ r. omega (
            arith,
            v.balanced r,
            total-erase (renderer_holds r) h e w.renderers found (omega arith),
          );
          safe = v.safe;
        }

    pub store_rd-Inv :
        (e : RendererDiscovererEntry)
        → w.next_handle + 2 < handle_mod
        → InvOf (λ r. rd_holds r e + x r) w
        → InvOf x (store_rd e w)
    unfolding store_rd
    store_rd-Inv e room v =
        let n = w.next_handle in
        let fresh = lookup_unused n w.rds (omega (arith, v.handles.new n (omega arith))) in
        record {
          handles =
              Handles-add w _ room refl (λ h. omega (arith, uses-insert n h e w.rds fresh))
                v.handles;
          users = Once-mono n (bump n) w.event_users (omega arith) v.users;
          rd_users = Once-mono n (bump n) w.rd_event_users (omega arith) v.rd_users;
          seekers = v.seekers;
          stops = v.stops;
          balanced = λ r. omega (arith, v.balanced r, total-insert (rd_holds r) n e w.rds fresh);
          safe = v.safe;
        }

    pub erase_rd-Inv :
        (h : ℕ) (e : RendererDiscovererEntry)
        → lookup h w.rds ≡ some e
        → InvOf x w
        → InvOf (λ r. rd_holds r e + x r) (record w { rds = erase h w.rds })
    erase_rd-Inv h e found v =
        let once = v.handles.one h in
        record {
          handles = Handles-less w _ refl (λ k. ground (arith, uses-erase h k w.rds)) v.handles;
          users = v.users;
          rd_users = v.rd_users;
          seekers = v.seekers;
          stops = v.stops;
          balanced = λ r.
              omega (arith, v.balanced r, total-erase (rd_holds r) h e w.rds found (omega arith));
          safe = v.safe;
        }
