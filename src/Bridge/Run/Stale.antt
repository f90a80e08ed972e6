-- ===== src/Bridge/Run/Stale.antt =====
-- A handle of entry/src/main/cpp/vlc_napi.cpp that is no longer in a table never comes back.
use vlc_harmony.Base.{
  ℕ, ◌+◌, ◌*◌, ◌<◌, ◌≤◌, ◌≡◌, sym, ap, ◌∙◌, Bool, true, false, Option, none, some, get_elem?, List,
  length, nat_eq, arith,
}
use vlc_harmony.Base.Table.{lookup, uses_found}
use vlc_harmony.Bridge.Calls.{u32_at}
use vlc_harmony.Bridge.Player.Freed.{IsFreed, release-IsFreed, release_async-IsFreed, stop-IsFreed}
use vlc_harmony.Bridge.Api.Safety.{serve-Keeps}
use vlc_harmony.Bridge.World.{PlayerEntry, Host, World, from, initial, handle_mod}
use vlc_harmony.Bridge.Ledger.{zero_dead, Inv, entries}
use vlc_harmony.Bridge.Api.{Api, serve}
use vlc_harmony.Bridge.Api.Errors.{takes_handle, stale_handle}
use vlc_harmony.Bridge.Run.{Action, run}
use vlc_harmony.Bridge.Run.Safety.{run-Good, ended-Inv}

abbrev or_zero : Option ℕ → ℕ
or_zero none = 0
or_zero (some n) = n

-- The account, with another handle that is dead.
watch :
    (h : ℕ) (w : World)
    → h < w.next_handle
    → entries h w ≡ 0
    → Inv ⦃dead = zero_dead⦄ w
    → Inv ⦃dead = record { handle = h }⦄ w
watch h w below gone v = record {
  handles = record { given = below; one = v.handles.one; new = v.handles.new; gone = gone };
  users = v.users;
  rd_users = v.rd_users;
  seekers = v.seekers;
  stops = v.stops;
  balanced = v.balanced;
  safe = v.safe;
}

module _ (host : Host) (h : ℕ) (w : World) (after : List Action) (inv : Inv ⦃dead = zero_dead⦄ w)
    (below : h < w.next_handle) (gone : entries h w ≡ 0)
    (room : w.next_handle + 2 * length after + 1 < handle_mod) where
  stays_dead : entries h (run host after w) ≡ 0
  stays_dead =
      let (u, m) =
        run-Good ⦃dead = record { handle = h }⦄ host after w (watch h w below gone inv) room in
      u.handles.gone

  refused :
      (f : Api) (args : List ℕ)
      → takes_handle f ≡ true
      → from (get_elem? args 0) host.get_uint32 ≡ some h
      → (serve host f args (run host after w)).1 ≡ run host after w
  refused f args t is =
      stale_handle host f args (run host after w) t
        λ k e. ap (λ j. entries j (run host after w)) (ap or_zero (sym e ∙ is)) ∙ stays_dead

-- A handle that was given out in a run, or 0, and for which no table has an entry at some moment, has
-- none whatever happens afterwards, for fewer than 2^31 - 1 actions in all: it is not given out again.
pub run-keeps_dead :
    (host : Host) (before after : List Action) (h : ℕ)
    → 2 * length before + 2 * length after + 2 < handle_mod
    → h < (run host before initial).next_handle
    → entries h (run host before initial) ≡ 0
    → entries h (run host after (run host before initial)) ≡ 0
run-keeps_dead host before after h room given gone =
    let (v, n) = ended-Inv host before (omega arith) in
    stays_dead host h (run host before initial) after v given gone (omega (arith, n))

-- The functions that end a player.
unfoldable pub ends_player : Api → Bool
ends_player Api.media_player_release = true
ends_player Api.media_player_release_async = true
ends_player Api.media_player_stop = true
ends_player _ = false

ends-IsFreed :
    (host : Host) (g : Api) (args : List ℕ) (h : ℕ) (e : PlayerEntry) (w : World)
    → ends_player g ≡ true
    → entries h w ≤ 1
    → u32_at host 1 0 args ≡ some h
    → lookup h w.players ≡ some e
    → IsFreed h w (serve host g args w).1
unfolding ends_player serve
ends-IsFreed host Api.media_player_release args h e w is one given at =
    release-IsFreed host args h e w one given at
ends-IsFreed host Api.media_player_release_async args h e w is one given at =
    release_async-IsFreed host args h e w one given at
ends-IsFreed host Api.media_player_stop args h e w is one given at =
    stop-IsFreed host args h e w one given at
ends-IsFreed host _ args h e w is one given at = ground (arith, is)

module _ (host : Host) (before after : List Action) (g : Api) (args : List ℕ) (h : ℕ)
    (e : PlayerEntry) (room : 2 * length before + 2 * length after + 4 < handle_mod)
    (ends : ends_player g ≡ true) (given : u32_at host 1 0 args ≡ some h)
    (at : lookup h (run host before initial).players ≡ some e) where
  -- The run up to the end of the player, and on.
  abbrev onward : World
  onward = run host after (serve host g args (run host before initial)).1

  -- A player that is ended, in any of the three ways and at any moment of a run, is beyond reach:
  -- whatever happens afterwards, a call with its handle as the first argument, of any function that
  -- takes a handle first, changes no table and calls nothing, for fewer than 2^31 - 2 actions in all.
  pub ended_player-refused :
      (f : Api) (late : List ℕ)
      → takes_handle f ≡ true
      → from (get_elem? late 0) host.get_uint32 ≡ some h
      → (serve host f late onward).1 ≡ onward
  ended_player-refused f late takes is =
      let w = run host before initial in
      let (v, n) = ended-Inv host before (omega arith) in
      let (none_left, next) = ends-IsFreed host g args h e w ends (v.handles.one h) given at in
      let (v₁, m) = serve-Keeps ⦃dead = zero_dead⦄ host g args w v (omega arith) in
      let some_there = uses_found h w.players e at in
      let below : h < (serve host g args w).1.next_handle =
        ground (arith, v.handles.new h, some_there, next) in
      refused host h (serve host g args w).1 after v₁ below none_left (omega (arith, n, m)) f late
        takes is
