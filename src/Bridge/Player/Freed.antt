-- ===== src/Bridge/Player/Freed.antt =====
-- The three functions of entry/src/main/cpp/vlc_napi.cpp that end a player leave its handle without an
-- entry in any table.
use vlc_harmony.Base.{
  ℕ, ◌+◌, ◌≤◌, ◌≡◌, refl, ◌∙◌, ap, Option, none, some, true, List, [], ◌∷◌, nat_eq, arith,
}
use vlc_harmony.Base.Table.{lookup, erase, uses, uses-erase, uses_found}
use vlc_harmony.Seek.{SeekWorker}
use vlc_harmony.Bridge.World.{
  LibEntry, MediaEntry, PlayerEntry, EqEntry, MediaListEntry, MediaDiscovererEntry,
  RendererItemEntry, RendererDiscovererEntry, Ref, Fn, EventType, player, tsfn, js_ref, Host, World,
  PlayerEntry, need, store_job,
}
use vlc_harmony.Bridge.Ledger.{entries}
use vlc_harmony.Bridge.Calls.{u32_at, drop}
use vlc_harmony.Bridge.Events.{
  detached_types, for_all_types, event_manager, detach_from, detach_all, delete_box,
  detach_player_events,
}
use vlc_harmony.Bridge.Player.{
  put_worker, turn_of, turn_worker, stop_of, shutdown_worker, start_job, remove_player, retire,
  media_player_release, media_player_release_async, media_player_stop,
}

-- The counter and the eight tables of handles.
record Tables : Type 0 where
  next : ℕ
  libs : List (ℕ × LibEntry)
  medias : List (ℕ × MediaEntry)
  players : List (ℕ × PlayerEntry)
  eqs : List (ℕ × EqEntry)
  lists : List (ℕ × MediaListEntry)
  mds : List (ℕ × MediaDiscovererEntry)
  renderers : List (ℕ × RendererItemEntry)
  rds : List (ℕ × RendererDiscovererEntry)

abbrev tables : World → Tables
tables w = record {
  next = w.next_handle;
  libs = w.libs;
  medias = w.medias;
  players = w.players;
  eqs = w.eqs;
  lists = w.lists;
  mds = w.mds;
  renderers = w.renderers;
  rds = w.rds;
}

abbrev without : ℕ → Tables → Tables
without h t = record t { players = erase h t.players }

abbrev entries_of : ℕ → Tables → ℕ
entries_of h t =
    uses h t.libs
    + uses h t.medias
    + uses h t.players
    + uses h t.eqs
    + uses h t.lists
    + uses h t.mds
    + uses h t.renderers
    + uses h t.rds

tables-drop : (kind : ℕ → Ref) (o : Option ℕ) (w : World) → tables (drop kind o w) ≡ tables w
tables-drop kind none w = refl
tables-drop kind (some p) w = refl

tables-remove :
    (h : ℕ) (e : PlayerEntry) (w : World) → tables (remove_player h e w) ≡ without h (tables w)
unfolding remove_player
tables-remove h e w =
    tables-drop js_ref e.js_callback_ref
      (drop tsfn e.tsfn (record w { players = erase h w.players }))
    ∙ tables-drop tsfn e.tsfn (record w { players = erase h w.players })

tables-job : (mp worker : Option ℕ) (w : World) → tables (start_job mp worker w) ≡ tables w
unfolding store_job
tables-job none worker w = refl
tables-job (some mp) worker w = refl

tables-all :
    (f : Fn) (mp box : ℕ) (ts : List EventType) (w : World)
    → tables (for_all_types f mp box ts w) ≡ tables w
unfolding for_all_types
tables-all f mp box [] w = refl
tables-all f mp box (t ∷ ts) w = tables-all f mp box ts _

module _ (host : Host) where
  tables-turn :
      (id : ℕ) (o : Option SeekWorker) (w : World) → tables (turn_of host id true o w) ≡ tables w
  unfolding turn_of put_worker
  tables-turn id none w = refl
  tables-turn id (some s) w = refl

  tables-stop :
      (id : ℕ) (o : Option SeekWorker) (w : World) → tables (stop_of host id o w) ≡ tables w
  unfolding stop_of
  tables-stop id none w = refl
  tables-stop id (some s) w = refl

  tables-turned : (id : ℕ) (w : World) → tables (turn_worker host id true w) ≡ tables w
  unfolding turn_worker
  tables-turned id w = tables-turn id (lookup id w.workers) w

  tables-shutdown : (o : Option ℕ) (w : World) → tables (shutdown_worker host o w) ≡ tables w
  unfolding shutdown_worker
  tables-shutdown none w = refl
  tables-shutdown (some id) w =
      tables-turned id _
      ∙ (tables-turned id _ ∙ (tables-turned id _ ∙ tables-stop id (lookup id w.workers) w))

  tables-from :
      (em : Option ℕ) (mp u : ℕ) (w : World) → tables (detach_from host em mp u w) ≡ tables w
  unfolding detach_from
  tables-from none mp u w = refl
  tables-from (some em) mp u w = tables-all Fn.event_detach mp u detached_types w

  tables-detach : (mp box : Option ℕ) (w : World) → tables (detach_all host mp box w) ≡ tables w
  unfolding detach_all event_manager
  tables-detach none box w = refl
  tables-detach (some mp) none w = refl
  tables-detach (some mp) (some u) w =
      tables-from (event_manager host mp w).0 mp u (event_manager host mp w).1

  tables-box : (h : ℕ) (box : Option ℕ) (w : World) → tables (delete_box host h box w) ≡ tables w
  unfolding delete_box
  tables-box h none w = refl
  tables-box h (some u) w = refl

  tables-events :
      (h : ℕ) (mp : Option ℕ) (w : World) → tables (detach_player_events host h mp w) ≡ tables w
  unfolding detach_player_events
  tables-events h mp w =
      let box = lookup h w.event_users in
      tables-box h box (detach_all host mp box w) ∙ tables-detach mp box w

-- What it is for a handle to be freed.
abbrev pub IsFreed : ℕ → World → World → Type 0
IsFreed h w w' = (entries h w' ≡ 0) × (w'.next_handle ≡ w.next_handle)

-- Without the player's entry no table has one for its handle, as there was no other.
freed :
    (h : ℕ) (e : PlayerEntry) (w w' : World)
    → entries h w ≤ 1
    → lookup h w.players ≡ some e
    → tables w' ≡ without h (tables w)
    → IsFreed h w w'
freed h e w w' one at same = (
  ap (entries_of h) same
      ∙ ground (arith, uses-erase h h w.players, uses_found h w.players e at, nat_eq.beq_iff h h),
  ap (λ t. t.next) same,
)

module _ (host : Host) (args : List ℕ) (h : ℕ) (e : PlayerEntry) (w : World) (one : entries h w ≤ 1)
    (given : u32_at host 1 0 args ≡ some h) (at : lookup h w.players ≡ some e) where
  pub release-IsFreed : IsFreed h w (media_player_release host args w).1
  unfolding media_player_release need
  release-IsFreed =
      let w₀ = detach_player_events host h e.mp w in
      let w₁ = remove_player h e w₀ in
      freed h e w (media_player_release host args w).1 one at (
        rw (given, at)
          (tables-drop player e.mp (shutdown_worker host e.seek_worker w₁)
            ∙ (tables-shutdown host e.seek_worker w₁
                ∙ (tables-remove h e w₀ ∙ ap (without h) (tables-events host h e.mp w)))))

  retire-IsFreed : IsFreed h w (retire host args w).1
  unfolding retire need
  retire-IsFreed =
      freed h e w (retire host args w).1 one at
        (rw (given, at) (tables-job e.mp e.seek_worker (remove_player h e w) ∙ tables-remove h e w))

  pub release_async-IsFreed : IsFreed h w (media_player_release_async host args w).1
  unfolding media_player_release_async
  release_async-IsFreed = retire-IsFreed

  pub stop-IsFreed : IsFreed h w (media_player_stop host args w).1
  unfolding media_player_stop
  stop-IsFreed = retire-IsFreed
