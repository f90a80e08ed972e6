-- ===== src/Bridge/Lists.antt =====
-- The media list and media discoverer functions of entry/src/main/cpp/vlc_napi.cpp. The lock and
-- unlock of a list around one call are left out.
pub mod Safety
use vlc_harmony.Base.{
  ℕ, zero, Bool, false, Option, none, some, List, [], ◌∷◌, ℤ, is_zero, nat_beq, if◌then◌else◌,
  nat_eq,
}
use vlc_harmony.Base.Table.{lookup, erase}
use vlc_harmony.Bridge.World.{
  Ref, inst, media, media_list, discoverer, Fn, Arg, num, int, text, flag, ptr, Host, World,
  MediaEntry, MediaListEntry, MediaDiscovererEntry, Ret, undefined, value, took, did, bump, emit,
  need, from, inst_of, media_of, list_of, md_of, store_list, store_media, store_md,
}
use vlc_harmony.Bridge.Calls.{both, u32_at, i32_at, string_at, call, call_with, drop}

abbrev drop_list : ℕ → Option MediaListEntry → World → World
drop_list h none w = w
drop_list h (some e) w = drop media_list e.list (record w { lists = erase h w.lists })

module _ (host : Host) where
  unfoldable pub media_list_create : List ℕ → World → Ret × World
  media_list_create args w =
      need (u32_at host 1 0 args) (value (num 0), w)
        λ lib.
          need (inst_of lib w) (value (num 0), w)
            λ i.
              let w₁ = emit (did Fn.media_list_new (inst i) []) w in
              need (host.make w.trace Fn.media_list_new []) (value (num 0), w₁)
                λ l. (
                  value (num w.next_handle),
                  store_list (record { list = some l }) (emit (took (media_list l)) w₁),
                )

  unfoldable pub media_list_release : List ℕ → World → Ret × World
  media_list_release args w =
      need (u32_at host 1 0 args) (undefined, w)
        λ h.
          need (lookup h w.lists) (undefined, w)
            λ e. (undefined, drop media_list e.list (record w { lists = erase h w.lists }))

  unfoldable pub media_list_count : List ℕ → World → Ret × World
  media_list_count args w =
      need (u32_at host 1 0 args) (value (int (ℤ.pos 0)), w)
        λ h.
          need (list_of h w) (value (int (ℤ.pos 0)), w)
            λ l.
              call Fn.media_list_count (media_list l) []
                (λ w. value (int (host.ask w.trace Fn.media_list_count (media_list l) []))) w

  unfoldable pub media_list_add_media : List ℕ → World → Ret × World
  media_list_add_media args w =
      need (both (u32_at host 2 0 args) (u32_at host 2 1 args)) (value (flag false), w)
        λ (lh, mh).
          need (list_of lh w) (value (flag false), w)
            λ l.
              need (media_of mh w) (value (flag false), w)
                λ m.
                  let a = ptr (some m) ∷ [] in
                  call_with Fn.media_list_add_media (media_list l) (media m) []
                    (λ w.
                      value (
                        flag (is_zero (host.ask w.trace Fn.media_list_add_media (media_list l) a))))
                    w

  unfoldable pub media_list_remove_index : List ℕ → World → Ret × World
  media_list_remove_index args w =
      need (both (u32_at host 2 0 args) (i32_at host 2 1 args)) (value (flag false), w)
        λ (lh, i).
          need (list_of lh w) (value (flag false), w)
            λ l.
              let a = int i ∷ [] in
              call Fn.media_list_remove_index (media_list l) a
                (λ w.
                  value
                    (flag (is_zero (host.ask w.trace Fn.media_list_remove_index (media_list l) a))))
                w

  -- The call retains the media that it gives, which gets a handle of its own.
  unfoldable pub media_list_item_at : List ℕ → World → Ret × World
  media_list_item_at args w =
      need (both (u32_at host 2 0 args) (i32_at host 2 1 args)) (value (num 0), w)
        λ (lh, i).
          need (list_of lh w) (value (num 0), w)
            λ l.
              let w₁ = emit (did Fn.media_list_item_at_index (media_list l) (int i ∷ [])) w in
              need (host.make w.trace Fn.media_list_item_at_index (ptr (some l) ∷ int i ∷ []))
                (value (num 0), w₁)
                λ m. (
                  value (num w.next_handle),
                  store_media (record { media = some m; owned_fd = none; lib_handle = 0 })
                      (emit (took (media m)) w₁),
                )

  -- The list of a discoverer, if it has one, is retained and gets a handle; without one it is 0.
  unfoldable pub share_list : ℕ → World → ℕ × World
  share_list md w =
      let w₁ = emit (did Fn.media_discoverer_media_list (discoverer md) []) w in
      need (host.make w.trace Fn.media_discoverer_media_list (ptr (some md) ∷ [])) (0, w₁)
        λ l. (w.next_handle, store_list (record { list = some l }) (emit (took (media_list l)) w₁))

  -- The entry of the discoverer, with the handle of its list.
  abbrev enter_md : ℕ → ℕ × World → Ret × World
  enter_md md (list_handle, w) =
      (value (num w.next_handle), store_md (record { md = some md; list_handle = list_handle }) w)

  unfoldable pub media_discoverer_create : List ℕ → World → Ret × World
  media_discoverer_create args w =
      need (u32_at host 2 0 args) (value (num 0), w)
        λ lib.
          need (inst_of lib w) (value (num 0), w)
            λ i.
              let name = text (string_at host 1 args) ∷ [] in
              let w₁ = emit (did Fn.media_discoverer_new (inst i) name) w in
              need (host.make w.trace Fn.media_discoverer_new name) (value (num 0), w₁)
                λ md. enter_md md (share_list md (emit (took (discoverer md)) w₁))

  -- What is left of the discoverer's list goes with it.
  unfoldable pub release_list : ℕ → World → World
  release_list h w = if nat_beq h 0 then w else drop_list h (lookup h w.lists) w

  unfoldable pub media_discoverer_release : List ℕ → World → Ret × World
  unfolding release_list
  media_discoverer_release args w =
      need (u32_at host 1 0 args) (undefined, w)
        λ h.
          need (lookup h w.mds) (undefined, w)
            λ e.
              let w₁ = record w { mds = erase h w.mds } in
              (undefined, drop discoverer e.md (release_list e.list_handle w₁))

  unfoldable pub media_discoverer_start : List ℕ → World → Ret × World
  media_discoverer_start args w =
      need (u32_at host 1 0 args) (value (flag false), w)
        λ h.
          need (md_of h w) (value (flag false), w)
            λ p.
              call Fn.media_discoverer_start (discoverer p) []
                (λ w.
                  value
                    (flag (is_zero (host.ask w.trace Fn.media_discoverer_start (discoverer p) []))))
                w

  unfoldable pub media_discoverer_stop : List ℕ → World → Ret × World
  media_discoverer_stop args w =
      need (u32_at host 1 0 args) (undefined, w)
        λ h.
          need (md_of h w) (undefined, w)
            λ p. call Fn.media_discoverer_stop (discoverer p) [] (λ _. undefined) w

  unfoldable pub media_discoverer_media_list : List ℕ → World → Ret × World
  media_discoverer_media_list args w =
      need (u32_at host 1 0 args) (value (num 0), w)
        λ h. need (lookup h w.mds) (value (num 0), w) λ e. (value (num e.list_handle), w)
