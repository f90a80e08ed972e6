-- ===== src/Bridge/Api/Refusal/Surfaces.antt =====
-- The functions of the surfaces of a player in entry/src/main/cpp/vlc_napi.cpp refuse a
-- handle that stands for no entry.
use vlc_harmony.Base.{ℕ, ◌≡◌, List}
use vlc_harmony.Bridge.World.{Host, World}
use vlc_harmony.Bridge.Surfaces.{
  media_player_detach_views, media_player_play, media_player_set_osd_video_out,
  media_player_set_video_out,
}
use vlc_harmony.Bridge.Api.Refusal.{IsStale, player-Finds, refuse}

module _ (host : Host) (args : List ℕ) (w : World) (stale : IsStale host args w) where
  pub media_player_set_video_out-refuses : (media_player_set_video_out host args w).1 ≡ w
  unfolding media_player_set_video_out
  media_player_set_video_out-refuses = refuse host args w stale 2 _ _ _ _ (player-Finds w)

  pub media_player_set_osd_video_out-refuses : (media_player_set_osd_video_out host args w).1 ≡ w
  unfolding media_player_set_osd_video_out
  media_player_set_osd_video_out-refuses = refuse host args w stale 2 _ _ _ _ (player-Finds w)

  pub media_player_detach_views-refuses : (media_player_detach_views host args w).1 ≡ w
  unfolding media_player_detach_views
  media_player_detach_views-refuses = refuse host args w stale 1 _ _ _ _ (player-Finds w)

  pub media_player_play-refuses : (media_player_play host args w).1 ≡ w
  unfolding media_player_play
  media_player_play-refuses = refuse host args w stale 1 _ _ _ _ (player-Finds w)
