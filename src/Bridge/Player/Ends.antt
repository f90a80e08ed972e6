-- ===== src/Bridge/Player/Ends.antt =====
-- The three functions of entry/src/main/cpp/vlc_napi.cpp that end a player take its handle away.
use vlc_harmony.Base.{ℕ, ◌≡◌, refl, ◌∙◌, ap, Bool, true, Option, none, some, List, nat_eq, arith}
use vlc_harmony.Base.Table.{lookup, erase, lookup-erase}
use vlc_harmony.Seek.{SeekWorker}
use vlc_harmony.Bridge.World.{
  Ref, player, tsfn, js_ref, Host, World, PlayerEntry, Ret, undefined, need, store_job,
}
use vlc_harmony.Bridge.Calls.{u32_at, drop}
use vlc_harmony.Bridge.Events.{detach_player_events}
use vlc_harmony.Bridge.Player.{
  put_worker, turn_of, turn_worker, stop_of, shutdown_worker, start_job, remove_player, retire,
  media_player_release, media_player_release_async, media_player_stop,
}

players-drop : (kind : ℕ → Ref) (o : Option ℕ) (w : World) → (drop kind o w).players ≡ w.players
players-drop kind none w = refl
players-drop kind (some p) w = refl

players-remove :
    (h : ℕ) (e : PlayerEntry) (w : World) → lookup h (remove_player h e w).players ≡ none
unfolding remove_player
players-remove h e w =
    ap (lookup h) (
      players-drop js_ref e.js_callback_ref
        (drop tsfn e.tsfn (record w { players = erase h w.players }))
      ∙ players-drop tsfn e.tsfn (record w { players = erase h w.players }))
    ∙ ground (arith, lookup-erase h h w.players)

players-job : (mp worker : Option ℕ) (w : World) → (start_job mp worker w).players ≡ w.players
unfolding store_job
players-job none worker w = refl
players-job (some mp) worker w = refl

module _ (host : Host) where
  players-turn :
      (id : ℕ) (b : Bool) (o : Option SeekWorker) (w : World)
      → (turn_of host id b o w).players ≡ w.players
  unfolding turn_of put_worker
  players-turn id b none w = refl
  players-turn id b (some s) w = refl

  players-stop :
      (id : ℕ) (o : Option SeekWorker) (w : World) → (stop_of host id o w).players ≡ w.players
  unfolding stop_of
  players-stop id none w = refl
  players-stop id (some s) w = refl

  turned : (id : ℕ) (w : World) → (turn_worker host id true w).players ≡ w.players
  unfolding turn_worker
  turned id w = players-turn id true (lookup id w.workers) w

  players-shutdown : (o : Option ℕ) (w : World) → (shutdown_worker host o w).players ≡ w.players
  unfolding shutdown_worker
  players-shutdown none w = refl
  players-shutdown (some id) w =
      turned id _ ∙ (turned id _ ∙ (turned id _ ∙ players-stop id (lookup id w.workers) w))

  gone :
      (args : List ℕ) (h : ℕ) (w : World) (o : Option ℕ) (p : Option PlayerEntry)
      (k : ℕ → PlayerEntry → Ret × World) (d : Ret)
      → o ≡ some h
      → lookup h w.players ≡ p
      → ((e : PlayerEntry) → lookup h (k h e).1.players ≡ none)
      → lookup h (need o (d, w) λ g. need (lookup g w.players) (d, w) λ e. k g e).1.players ≡ none
  unfolding need
  gone args h w o none k d is at f = rw (is, at) at
  gone args h w o (some e) k d is at f = rw (is, at) (f e)

  -- Called with a handle, each of the functions `MediaPlayerRelease`, `MediaPlayerReleaseAsync` and
  -- `MediaPlayerStop` leaves no player behind that handle, whether there was one or not.
  pub released-player :
      (args : List ℕ) (h : ℕ) (w : World)
      → u32_at host 1 0 args ≡ some h
      → (lookup h (media_player_release host args w).1.players ≡ none)
        × (lookup h (media_player_release_async host args w).1.players ≡ none)
        × (lookup h (media_player_stop host args w).1.players ≡ none)
  unfolding media_player_release media_player_release_async media_player_stop retire
  released-player args h w is = (
    gone args h w _ (lookup h w.players) _ undefined is refl (λ e.
        ap (lookup h) (players-drop player e.mp _ ∙ players-shutdown e.seek_worker _)
        ∙ players-remove h e (detach_player_events host h e.mp w)),
    gone args h w _ (lookup h w.players) _ undefined is refl
        (λ e. ap (lookup h) (players-job e.mp e.seek_worker _) ∙ players-remove h e w),
    gone args h w _ (lookup h w.players) _ undefined is refl
        (λ e. ap (lookup h) (players-job e.mp e.seek_worker _) ∙ players-remove h e w),
  )
