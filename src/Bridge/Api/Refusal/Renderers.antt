-- ===== src/Bridge/Api/Refusal/Renderers.antt =====
-- The functions of renderers in entry/src/main/cpp/vlc_napi.cpp refuse a
-- handle that stands for no entry.
use vlc_harmony.Base.{ℕ, ◌≡◌, refl, List}
use vlc_harmony.Bridge.World.{Host, World}
use vlc_harmony.Bridge.Calls.{u32_at}
use vlc_harmony.Bridge.Calls.Safety.{need_any}
use vlc_harmony.Bridge.Renderers.{
  renderer_discoverer_create, renderer_discoverer_get_items, renderer_discoverer_list,
  renderer_discoverer_release, renderer_discoverer_start, renderer_discoverer_stop,
  renderer_item_release,
}
use vlc_harmony.Bridge.Api.Refusal.{
  IsStale, inst_of-Finds, rd-Finds, rd_of-Finds, refuse, renderer-Finds, u32_at-dead,
}
use vlc_harmony.Bridge.Renderers.{free_item}
use vlc_harmony.Bridge.World.{undefined}

module _ (host : Host) (args : List ℕ) (w : World) (stale : IsStale host args w) where
  pub renderer_discoverer_list-refuses : (renderer_discoverer_list host args w).1 ≡ w
  unfolding renderer_discoverer_list
  renderer_discoverer_list-refuses = refuse host args w stale 1 _ _ _ _ (inst_of-Finds w)

  pub renderer_discoverer_create-refuses : (renderer_discoverer_create host args w).1 ≡ w
  unfolding renderer_discoverer_create
  renderer_discoverer_create-refuses = refuse host args w stale 2 _ _ _ _ (inst_of-Finds w)

  pub renderer_discoverer_release-refuses : (renderer_discoverer_release host args w).1 ≡ w
  unfolding renderer_discoverer_release
  renderer_discoverer_release-refuses = refuse host args w stale 1 _ _ _ _ (rd-Finds w)

  pub renderer_discoverer_start-refuses : (renderer_discoverer_start host args w).1 ≡ w
  unfolding renderer_discoverer_start
  renderer_discoverer_start-refuses = refuse host args w stale 1 _ _ _ _ (rd_of-Finds w)

  pub renderer_discoverer_stop-refuses : (renderer_discoverer_stop host args w).1 ≡ w
  unfolding renderer_discoverer_stop
  renderer_discoverer_stop-refuses = refuse host args w stale 1 _ _ _ _ (rd_of-Finds w)

  pub renderer_discoverer_get_items-refuses : (renderer_discoverer_get_items host args w).1 ≡ w
  unfolding renderer_discoverer_get_items
  renderer_discoverer_get_items-refuses = refuse host args w stale 1 _ _ _ _ (rd-Finds w)

  pub renderer_item_release-refuses : (renderer_item_release host args w).1 ≡ w
  unfolding renderer_item_release free_item
  renderer_item_release-refuses =
      need_any (λ u. u ≡ w) (u32_at host 1 0 args) (undefined, w) _ refl
        λ h e. rw (renderer-Finds w h (u32_at-dead host args w stale 1 h e)) refl
