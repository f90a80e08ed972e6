-- ===== src/Bridge/Api/Refusal/Player.antt =====
-- The functions of the life of a player in entry/src/main/cpp/vlc_napi.cpp refuse a
-- handle that stands for no entry.
use vlc_harmony.Base.{ℕ, ◌≡◌, refl, List}
use vlc_harmony.Bridge.World.{Host, World}
use vlc_harmony.Bridge.Calls.{u32_at, both, i64_at, f64_at}
use vlc_harmony.Bridge.Calls.Safety.{need_any}
use vlc_harmony.Bridge.Player.{
  media_player_create, media_player_release, media_player_release_async,
  media_player_set_event_listener, media_player_set_media, media_player_set_position,
  media_player_set_time, media_player_stop, retire,
}
use vlc_harmony.Bridge.Api.Refusal.{
  IsStale, both-first, inst_of-Finds, player-Finds, refuse, refuse_both, u32_at-dead,
}
use vlc_harmony.Bridge.Player.{worker_of, queue_worker}
use vlc_harmony.Bridge.World.{undefined}

module _ (host : Host) (args : List ℕ) (w : World) (stale : IsStale host args w) where
  pub media_player_create-refuses : (media_player_create host args w).1 ≡ w
  unfolding media_player_create
  media_player_create-refuses = refuse host args w stale 1 _ _ _ _ (inst_of-Finds w)

  pub media_player_release-refuses : (media_player_release host args w).1 ≡ w
  unfolding media_player_release
  media_player_release-refuses = refuse host args w stale 1 _ _ _ _ (player-Finds w)

  pub media_player_release_async-refuses : (media_player_release_async host args w).1 ≡ w
  unfolding media_player_release_async retire
  media_player_release_async-refuses = refuse host args w stale 1 _ _ _ _ (player-Finds w)

  pub media_player_set_event_listener-refuses : (media_player_set_event_listener host args w).1 ≡ w
  unfolding media_player_set_event_listener
  media_player_set_event_listener-refuses =
      refuse_both host args w stale 2 _ _ _ _ _ (player-Finds w)

  pub media_player_set_media-refuses : (media_player_set_media host args w).1 ≡ w
  unfolding media_player_set_media
  media_player_set_media-refuses = refuse_both host args w stale 2 _ _ _ _ _ (player-Finds w)

  pub media_player_stop-refuses : (media_player_stop host args w).1 ≡ w
  unfolding media_player_stop retire
  media_player_stop-refuses = refuse host args w stale 1 _ _ _ _ (player-Finds w)

  pub media_player_set_time-refuses : (media_player_set_time host args w).1 ≡ w
  unfolding media_player_set_time worker_of queue_worker
  media_player_set_time-refuses =
      need_any (λ u. u ≡ w) (both (u32_at host 2 0 args) (i64_at host 2 1 args)) (undefined, w) _
        refl
        λ a e.
          rw
            (player-Finds w a.0 (
              u32_at-dead host args w stale 2 a.0
                (both-first (u32_at host 2 0 args) (i64_at host 2 1 args) a e)))
            refl

  pub media_player_set_position-refuses : (media_player_set_position host args w).1 ≡ w
  unfolding media_player_set_position worker_of queue_worker
  media_player_set_position-refuses =
      need_any (λ u. u ≡ w) (both (u32_at host 2 0 args) (f64_at host 2 1 args)) (undefined, w) _
        refl
        λ a e.
          rw
            (player-Finds w a.0 (
              u32_at-dead host args w stale 2 a.0
                (both-first (u32_at host 2 0 args) (f64_at host 2 1 args) a e)))
            refl
