-- ===== src/Bridge/Player/Race.antt =====
-- An event of a player between the moment at which `on_player_event` of entry/src/main/cpp/vlc_napi.cpp
-- reads the function to call, and the moment at which `EmitPlayerEventTsfn` acquires it: the lock is
-- free there, and `MediaPlayerStop` may run.
use vlc_harmony.Base.{ℕ, suc, ◌≡◌, refl, String, Option, none, some, List, nat_eq, arith}
use vlc_harmony.Base.Table.{lookup, erase}
use vlc_harmony.Bridge.World.{store_job, js_ref, tsfn, Host, World, PlayerEntry, need}
use vlc_harmony.Bridge.Ledger.{hits, hits_self, takes, drops, IsHeld, IsSafe}
use vlc_harmony.Bridge.Calls.{u32_at, drop}
use vlc_harmony.Bridge.Events.{emit_player_event}
use vlc_harmony.Bridge.Player.{remove_player, start_job, retire, media_player_stop}

start_job-trace : (mp worker : Option ℕ) (w : World) → (start_job mp worker w).trace ≡ w.trace
unfolding store_job
start_job-trace none worker w = refl
start_job-trace (some mp) worker w = refl

other_kind : (t p : ℕ) → hits (tsfn t) (js_ref p) ≡ 0
unfolding hits
other_kind t p = refl

js_ref-drops :
    (t : ℕ) (o : Option ℕ) (w : World)
    → (drops (tsfn t) (drop js_ref o w).trace ≡ drops (tsfn t) w.trace)
      × (takes (tsfn t) (drop js_ref o w).trace ≡ takes (tsfn t) w.trace)
js_ref-drops t none w = (refl, refl)
js_ref-drops t (some p) w = (omega (arith, other_kind t p), refl)

remove_player-drops :
    (h t : ℕ) (e : PlayerEntry) (w : World)
    → e.tsfn ≡ some t
    → (drops (tsfn t) (remove_player h e w).trace ≡ suc (drops (tsfn t) w.trace))
      × (takes (tsfn t) (remove_player h e w).trace ≡ takes (tsfn t) w.trace)
unfolding remove_player
remove_player-drops h t e w is = rw is (
    let v = drop tsfn (some t) (record w { players = erase h w.players }) in
    let (d, k) = js_ref-drops t e.js_callback_ref v in (omega (arith, d, hits_self (tsfn t)), k))

retired :
    (host : Host) (args : List ℕ) (h : ℕ) (e : PlayerEntry) (w : World)
    → u32_at host 1 0 args ≡ some h
    → lookup h w.players ≡ some e
    → (media_player_stop host args w).1.trace ≡ (remove_player h e w).trace
unfolding media_player_stop retire need
retired host args h e w given at =
    rw (given, at) (start_job-trace e.mp e.seek_worker (remove_player h e w))

-- An event is emitted safely only if its function is held.
acquired :
    (t h : ℕ) (name : String) (v : ℕ) (w : World)
    → IsSafe (emit_player_event (some t) h name v w).trace
    → IsHeld (tsfn t) w.trace
unfolding emit_player_event
acquired t h name v w (a, (b, (held, rest))) = held

-- If the entry of the player holds the only reference to its function, which was taken once more
-- than given back, and `MediaPlayerStop` runs in that moment, the event acquires a function that was given back: a use after release.
pub stop_races_event :
    (host : Host) (args : List ℕ) (h t : ℕ) (e : PlayerEntry) (name : String) (v : ℕ) (w : World)
    → u32_at host 1 0 args ≡ some h
    → lookup h w.players ≡ some e
    → e.tsfn ≡ some t
    → takes (tsfn t) w.trace ≡ suc (drops (tsfn t) w.trace)
    → ¬ IsSafe (emit_player_event e.tsfn h name v (media_player_stop host args w).1).trace
stop_races_event host args h t e name v w given at is single = rw is λ safe.
    let held = acquired t h name v (media_player_stop host args w).1 safe in
    let (d, k) = remove_player-drops h t e w is in
    omega (arith, rw (retired host args h e w given at) at held, d, k)
