-- ===== src/Bridge/Api/Refusal/Media.antt =====
-- The functions of instances and media in entry/src/main/cpp/vlc_napi.cpp refuse a
-- handle that stands for no entry.
use vlc_harmony.Base.{ℕ, ◌≡◌, List}
use vlc_harmony.Bridge.World.{Host, World}
use vlc_harmony.Bridge.Media.{
  libvlc_release, media_add_option, media_add_slave, media_create, media_create_fd,
  media_create_location, media_create_path, media_get_meta, media_get_stats, media_get_tracks_info,
  media_parse, media_release,
}
use vlc_harmony.Bridge.Api.Refusal.{
  IsStale, inst_of-Finds, lib-Finds, media-Finds, media_of-Finds, refuse, refuse_both,
}

module _ (host : Host) (args : List ℕ) (w : World) (stale : IsStale host args w) where
  pub libvlc_release-refuses : (libvlc_release host args w).1 ≡ w
  unfolding libvlc_release
  libvlc_release-refuses = refuse host args w stale 1 _ _ _ _ (lib-Finds w)

  pub media_create_location-refuses : (media_create_location host args w).1 ≡ w
  unfolding media_create_location media_create
  media_create_location-refuses = refuse host args w stale 2 _ _ _ _ (inst_of-Finds w)

  pub media_create_path-refuses : (media_create_path host args w).1 ≡ w
  unfolding media_create_path media_create
  media_create_path-refuses = refuse host args w stale 2 _ _ _ _ (inst_of-Finds w)

  pub media_create_fd-refuses : (media_create_fd host args w).1 ≡ w
  unfolding media_create_fd
  media_create_fd-refuses = refuse_both host args w stale 2 _ _ _ _ _ (inst_of-Finds w)

  pub media_release-refuses : (media_release host args w).1 ≡ w
  unfolding media_release
  media_release-refuses = refuse host args w stale 1 _ _ _ _ (media-Finds w)

  pub media_parse-refuses : (media_parse host args w).1 ≡ w
  unfolding media_parse
  media_parse-refuses = refuse host args w stale 1 _ _ _ _ (media_of-Finds w)

  pub media_get_meta-refuses : (media_get_meta host args w).1 ≡ w
  unfolding media_get_meta
  media_get_meta-refuses = refuse host args w stale 1 _ _ _ _ (media_of-Finds w)

  pub media_get_stats-refuses : (media_get_stats host args w).1 ≡ w
  unfolding media_get_stats
  media_get_stats-refuses = refuse host args w stale 1 _ _ _ _ (media_of-Finds w)

  pub media_add_option-refuses : (media_add_option host args w).1 ≡ w
  unfolding media_add_option
  media_add_option-refuses = refuse host args w stale 2 _ _ _ _ (media_of-Finds w)

  pub media_get_tracks_info-refuses : (media_get_tracks_info host args w).1 ≡ w
  unfolding media_get_tracks_info
  media_get_tracks_info-refuses = refuse host args w stale 1 _ _ _ _ (media_of-Finds w)

  pub media_add_slave-refuses : (media_add_slave host args w).1 ≡ w
  unfolding media_add_slave
  media_add_slave-refuses = refuse_both host args w stale 3 _ _ _ _ _ (media_of-Finds w)
