-- ===== src/Bridge/Ledger/Tables.antt =====
-- What storing an entry in a table of entry/src/main/cpp/vlc_napi.cpp, and erasing one, does to the
-- account of references: entries carry references from the function's hands into the table and back.
use vlc_harmony.Base.{ℕ, ◌+◌, ◌<◌, ◌≡◌, refl, some, nat_eq, arith}
use vlc_harmony.Base.Table.{
  lookup, erase, lookup_unused, uses-insert, uses-erase, total-insert, total-erase,
}
use vlc_harmony.Bridge.World.{
  Ref, World, LibEntry, MediaEntry, PlayerEntry, EqEntry, bump, handle_mod, store_lib, store_media,
  store_player, store_eq,
}
use vlc_harmony.Bridge.Ledger.{
  Dead, lib_holds, media_holds, player_holds, eq_holds, InvOf, Once-mono,
}
use vlc_harmony.Bridge.Ledger.Moves.{Handles-add, Handles-less}

module _ ⦃dead : Dead⦄ where
  module _ (x : Ref → ℕ) (w : World) where
    pub store_lib-Inv :
        (e : LibEntry)
        → w.next_handle + 2 < handle_mod
        → InvOf (λ r. lib_holds r e + x r) w
        → InvOf x (store_lib e w)
    unfolding store_lib
    store_lib-Inv e room v =
        let n = w.next_handle in
        let fresh = lookup_unused n w.libs (omega (arith, v.handles.new n (omega arith))) in
        record {
          handles =
              Handles-add w _ room refl (λ h. omega (arith, uses-insert n h e w.libs fresh))
                v.handles;
          users = Once-mono n (bump n) w.event_users (omega arith) v.users;
          rd_users = Once-mono n (bump n) w.rd_event_users (omega arith) v.rd_users;
          seekers = v.seekers;
          stops = v.stops;
          balanced = λ r. omega (arith, v.balanced r, total-insert (lib_holds r) n e w.libs fresh);
          safe = v.safe;
        }

    pub erase_lib-Inv :
        (h : ℕ) (e : LibEntry)
        → lookup h w.libs ≡ some e
        → InvOf x w
        → InvOf (λ r. lib_holds r e + x r) (record w { libs = erase h w.libs })
    erase_lib-Inv h e found v =
        let once = v.handles.one h in
        record {
          handles = Handles-less w _ refl (λ k. ground (arith, uses-erase h k w.libs)) v.handles;
          users = v.users;
          rd_users = v.rd_users;
          seekers = v.seekers;
          stops = v.stops;
          balanced = λ r.
              omega (arith, v.balanced r, total-erase (lib_holds r) h e w.libs found (omega arith));
          safe = v.safe;
        }

    pub store_media-Inv :
        (e : MediaEntry)
        → w.next_handle + 2 < handle_mod
        → InvOf (λ r. media_holds r e + x r) w
        → InvOf x (store_media e w)
    unfolding store_media
    store_media-Inv e room v =
        let n = w.next_handle in
        let fresh = lookup_unused n w.medias (omega (arith, v.handles.new n (omega arith))) in
        record {
          handles =
              Handles-add w _ room refl (λ h. omega (arith, uses-insert n h e w.medias fresh))
                v.handles;
          users = Once-mono n (bump n) w.event_users (omega arith) v.users;
          rd_users = Once-mono n (bump n) w.rd_event_users (omega arith) v.rd_users;
          seekers = v.seekers;
          stops = v.stops;
          balanced =
              λ r. omega (arith, v.balanced r, total-insert (media_holds r) n e w.medias fresh);
          safe = v.safe;
        }

    pub erase_media-Inv :
        (h : ℕ) (e : MediaEntry)
        → lookup h w.medias ≡ some e
        → InvOf x w
        → InvOf (λ r. media_holds r e + x r) (record w { medias = erase h w.medias })
    erase_media-Inv h e found v =
        let once = v.handles.one h in
        record {
          handles = Handles-less w _ refl (λ k. ground (arith, uses-erase h k w.medias)) v.handles;
          users = v.users;
          rd_users = v.rd_users;
          seekers = v.seekers;
          stops = v.stops;
          balanced = λ r.
              omega
                (arith, v.balanced r, total-erase (media_holds r) h e w.medias found (omega arith));
          safe = v.safe;
        }

    pub store_player-Inv :
        (e : PlayerEntry)
        → w.next_handle + 2 < handle_mod
        → InvOf (λ r. player_holds r e + x r) w
        → InvOf x (store_player e w)
    unfolding store_player
    store_player-Inv e room v =
        let n = w.next_handle in
        let fresh = lookup_unused n w.players (omega (arith, v.handles.new n (omega arith))) in
        record {
          handles =
              Handles-add w _ room refl (λ h. omega (arith, uses-insert n h e w.players fresh))
                v.handles;
          users = Once-mono n (bump n) w.event_users (omega arith) v.users;
          rd_users = Once-mono n (bump n) w.rd_event_users (omega arith) v.rd_users;
          seekers = v.seekers;
          stops = v.stops;
          balanced =
              λ r. omega (arith, v.balanced r, total-insert (player_holds r) n e w.players fresh);
          safe = v.safe;
        }

    pub erase_player-Inv :
        (h : ℕ) (e : PlayerEntry)
        → lookup h w.players ≡ some e
        → InvOf x w
        → InvOf (λ r. player_holds r e + x r) (record w { players = erase h w.players })
    erase_player-Inv h e found v =
        let once = v.handles.one h in
        record {
          handles = Handles-less w _ refl (λ k. ground (arith, uses-erase h k w.players)) v.handles;
          users = v.users;
          rd_users = v.rd_users;
          seekers = v.seekers;
          stops = v.stops;
          balanced = λ r.
              omega (
                arith,
                v.balanced r,
                total-erase (player_holds r) h e w.players found (omega arith),
              );
          safe = v.safe;
        }

    pub store_eq-Inv :
        (e : EqEntry)
        → w.next_handle + 2 < handle_mod
        → InvOf (λ r. eq_holds r e + x r) w
        → InvOf x (store_eq e w)
    unfolding store_eq
    store_eq-Inv e room v =
        let n = w.next_handle in
        let fresh = lookup_unused n w.eqs (omega (arith, v.handles.new n (omega arith))) in
        record {
          handles =
              Handles-add w _ room refl (λ h. omega (arith, uses-insert n h e w.eqs fresh))
                v.handles;
          users = Once-mono n (bump n) w.event_users (omega arith) v.users;
          rd_users = Once-mono n (bump n) w.rd_event_users (omega arith) v.rd_users;
          seekers = v.seekers;
          stops = v.stops;
          balanced = λ r. omega (arith, v.balanced r, total-insert (eq_holds r) n e w.eqs fresh);
          safe = v.safe;
        }

    pub erase_eq-Inv :
        (h : ℕ) (e : EqEntry)
        → lookup h w.eqs ≡ some e
        → InvOf x w
        → InvOf (λ r. eq_holds r e + x r) (record w { eqs = erase h w.eqs })
    erase_eq-Inv h e found v =
        let once = v.handles.one h in
        record {
          handles = Handles-less w _ refl (λ k. ground (arith, uses-erase h k w.eqs)) v.handles;
          users = v.users;
          rd_users = v.rd_users;
          seekers = v.seekers;
          stops = v.stops;
          balanced = λ r.
              omega (arith, v.balanced r, total-erase (eq_holds r) h e w.eqs found (omega arith));
          safe = v.safe;
        }
