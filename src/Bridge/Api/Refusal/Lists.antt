-- ===== src/Bridge/Api/Refusal/Lists.antt =====
-- The functions of media lists and discoverers in entry/src/main/cpp/vlc_napi.cpp refuse a
-- handle that stands for no entry.
use vlc_harmony.Base.{ℕ, ◌≡◌, List}
use vlc_harmony.Bridge.World.{Host, World}
use vlc_harmony.Bridge.Lists.{
  media_discoverer_create, media_discoverer_media_list, media_discoverer_release,
  media_discoverer_start, media_discoverer_stop, media_list_add_media, media_list_count,
  media_list_create, media_list_item_at, media_list_release, media_list_remove_index,
}
use vlc_harmony.Bridge.Api.Refusal.{
  IsStale, inst_of-Finds, list-Finds, list_of-Finds, md-Finds, md_of-Finds, refuse, refuse_both,
}

module _ (host : Host) (args : List ℕ) (w : World) (stale : IsStale host args w) where
  pub media_list_create-refuses : (media_list_create host args w).1 ≡ w
  unfolding media_list_create
  media_list_create-refuses = refuse host args w stale 1 _ _ _ _ (inst_of-Finds w)

  pub media_list_release-refuses : (media_list_release host args w).1 ≡ w
  unfolding media_list_release
  media_list_release-refuses = refuse host args w stale 1 _ _ _ _ (list-Finds w)

  pub media_list_count-refuses : (media_list_count host args w).1 ≡ w
  unfolding media_list_count
  media_list_count-refuses = refuse host args w stale 1 _ _ _ _ (list_of-Finds w)

  pub media_list_add_media-refuses : (media_list_add_media host args w).1 ≡ w
  unfolding media_list_add_media
  media_list_add_media-refuses = refuse_both host args w stale 2 _ _ _ _ _ (list_of-Finds w)

  pub media_list_remove_index-refuses : (media_list_remove_index host args w).1 ≡ w
  unfolding media_list_remove_index
  media_list_remove_index-refuses = refuse_both host args w stale 2 _ _ _ _ _ (list_of-Finds w)

  pub media_list_item_at-refuses : (media_list_item_at host args w).1 ≡ w
  unfolding media_list_item_at
  media_list_item_at-refuses = refuse_both host args w stale 2 _ _ _ _ _ (list_of-Finds w)

  pub media_discoverer_create-refuses : (media_discoverer_create host args w).1 ≡ w
  unfolding media_discoverer_create
  media_discoverer_create-refuses = refuse host args w stale 2 _ _ _ _ (inst_of-Finds w)

  pub media_discoverer_release-refuses : (media_discoverer_release host args w).1 ≡ w
  unfolding media_discoverer_release
  media_discoverer_release-refuses = refuse host args w stale 1 _ _ _ _ (md-Finds w)

  pub media_discoverer_start-refuses : (media_discoverer_start host args w).1 ≡ w
  unfolding media_discoverer_start
  media_discoverer_start-refuses = refuse host args w stale 1 _ _ _ _ (md_of-Finds w)

  pub media_discoverer_stop-refuses : (media_discoverer_stop host args w).1 ≡ w
  unfolding media_discoverer_stop
  media_discoverer_stop-refuses = refuse host args w stale 1 _ _ _ _ (md_of-Finds w)

  pub media_discoverer_media_list-refuses : (media_discoverer_media_list host args w).1 ≡ w
  unfolding media_discoverer_media_list
  media_discoverer_media_list-refuses = refuse host args w stale 1 _ _ _ _ (md-Finds w)
