-- ===== src/Bridge/Renderers.antt =====
-- The renderer discoverers of entry/src/main/cpp/vlc_napi.cpp, and the renderers that they report. A
-- discoverer's callback has its entry by address; here it has the handle of that entry. The callback
-- is attached as long as the entry is there, so without the entry it does nothing.
pub mod Found
pub mod Safety
use vlc_harmony.Base.{
  ℕ, String, Bool, false, Option, none, some, List, [], ◌∷◌, ◌++◌, map, ℤ, is_zero, get_elem?,
  nat_eq,
}
use vlc_harmony.Base.Table.{lookup, insert, erase}
use vlc_harmony.Bridge.World.{
  inst, renderer, renderer_discoverer, tsfn, js_ref, rd_user, Fn, Arg, num, text, flag, ptr, did,
  did_with, took, dropped, Host, World, RendererItemEntry, RendererDiscovererEntry, Ret, undefined,
  value, array, values, emit, need, inst_of, rd_of, store_renderer, store_rd,
}
use vlc_harmony.Bridge.Calls.{u32_at, string_at, call, drop}
use vlc_harmony.Bridge.Events.{emit_player_event}

-- A libVLC event of a discoverer; the item of an added renderer may be null.
pub data RendererEvent : Type 0 where
  added : Option ℕ → RendererEvent
  deleted other : RendererEvent

abbrev pub text_or_empty : Option String → String
text_or_empty none = ""
text_or_empty (some s) = s

abbrev with_item : ℕ → RendererDiscovererEntry → RendererDiscovererEntry
with_item h e = record e { item_handles = e.item_handles ++ h ∷ [] }

-- The two types of events that a discoverer is listened to for.
abbrev pub for_both : Fn → ℕ → ℕ → World → World
for_both f rd box w =
    emit
      (did_with f (renderer_discoverer rd) (rd_user box)
        (text "RendererDiscovererItemDeleted" ∷ []))
      (emit
        (did_with f (renderer_discoverer rd) (rd_user box)
          (text "RendererDiscovererItemAdded" ∷ []))
        w)

module _ (host : Host) where
  -- The renderer is held, gets a handle, and is noted with its discoverer.
  unfoldable pub add_item : ℕ → ℕ → RendererDiscovererEntry → World → World
  add_item rd_handle item e w =
      let w₁ =
        store_renderer (record { item = some item; rd_handle = rd_handle })
          (emit (took (renderer item)) w) in
      emit_player_event e.tsfn w.next_handle "rendererItemAdded"
        (host.double_of_int (ℤ.pos w.next_handle))
        (record w₁ { rds = insert rd_handle (with_item w.next_handle e) w₁.rds })

  renderer_event : ℕ → RendererEvent → Option RendererDiscovererEntry → World → World
  unfolding add_item
  renderer_event h event none w = w
  renderer_event h (added none) (some e) w = w
  renderer_event h (added (some item)) (some e) w = add_item h item e w
  renderer_event h deleted (some e) w = emit_player_event e.tsfn 0 "rendererItemDeleted" 0 w
  renderer_event h other (some e) w = w

  unfoldable pub on_renderer_event : ℕ → RendererEvent → World → World
  unfolding renderer_event
  on_renderer_event h event w = renderer_event h event (lookup h w.rds) w

  unfoldable pub renderer_discoverer_list : List ℕ → World → Ret × World
  renderer_discoverer_list args w =
      need (u32_at host 1 0 args) (values [], w)
        λ lib.
          need (inst_of lib w) (values [], w)
            λ i.
              call Fn.renderer_discoverer_list_get (inst i) []
                (λ w. values (
                  map (λ n. text (text_or_empty n))
                    (host.ask_names w.trace Fn.renderer_discoverer_list_get (inst i))))
                w

  -- `libvlc_renderer_discoverer_event_manager`: what it answers, and the state after the call.
  rd_event_manager : ℕ → World → Option ℕ × World
  rd_event_manager rd w = (
    host.make w.trace Fn.renderer_discoverer_event_manager (ptr (some rd) ∷ []),
    emit (did Fn.renderer_discoverer_event_manager (renderer_discoverer rd) []) w,
  )

  attach_if : Option ℕ → ℕ → ℕ → World → World
  attach_if none rd box w = w
  attach_if (some em) rd box w = for_both Fn.event_attach rd box w

  -- The entry, and the box that its callbacks get.
  unfoldable pub enter_rd : ℕ → ℕ → World → World
  unfolding rd_event_manager attach_if
  enter_rd lib rd w =
      let h = w.next_handle in
      let w₁ =
        store_rd
          (record {
            rd = some rd;
            lib_handle = lib;
            item_handles = [];
            tsfn = none;
            js_callback_ref = none;
          })
          w in
      let w₂ = emit (took (rd_user h)) w₁ in
      let w₃ : World = record w₂ { rd_event_users = insert h h w₂.rd_event_users } in
      let (em, w₄) = rd_event_manager rd w₃ in attach_if em rd h w₄

  unfoldable pub renderer_discoverer_create : List ℕ → World → Ret × World
  unfolding enter_rd
  renderer_discoverer_create args w =
      need (u32_at host 2 0 args) (value (num 0), w)
        λ lib.
          need (inst_of lib w) (value (num 0), w)
            λ i.
              let name = text (string_at host 1 args) ∷ [] in
              let w₁ = emit (did Fn.renderer_discoverer_new (inst i) name) w in
              need (host.make w.trace Fn.renderer_discoverer_new name) (value (num 0), w₁)
                λ rd. (
                  value (num w.next_handle),
                  enter_rd lib rd (emit (took (renderer_discoverer rd)) w₁),
                )

  detach_if : Option ℕ → ℕ → ℕ → World → World
  detach_if none rd box w = w
  detach_if (some em) rd box w = for_both Fn.event_detach rd box w

  -- The callbacks are detached, and their box is deleted, if both are there.
  unfoldable pub free_box : ℕ → Option ℕ → Option ℕ → World → World
  unfolding rd_event_manager detach_if
  free_box h none rd w = w
  free_box h (some box) none w = w
  free_box h (some box) (some rd) w =
      let (em, w₀) = rd_event_manager rd w in
      let w₁ = detach_if em rd box w₀ in
      emit (dropped (rd_user box)) (record w₁ { rd_event_users = erase h w₁.rd_event_users })

-- An entry of the table of renderers goes, if it is there.
unfoldable pub free_item : ℕ → Option RendererItemEntry → World → World
free_item h none w = w
free_item h (some e) w = drop renderer e.item (record w { renderers = erase h w.renderers })

unfoldable pub free_items : List ℕ → World → World
unfolding free_item
free_items [] w = w
free_items (h ∷ hs) w = free_items hs (free_item h (lookup h w.renderers) w)

-- The entry of a discoverer goes, with what it holds.
unfoldable pub free_rd : ℕ → RendererDiscovererEntry → World → World
free_rd h e w =
    drop renderer_discoverer e.rd
      (drop js_ref e.js_callback_ref (drop tsfn e.tsfn (record w { rds = erase h w.rds })))

module _ (host : Host) where
  unfoldable pub renderer_discoverer_release : List ℕ → World → Ret × World
  unfolding free_box free_items free_rd
  renderer_discoverer_release args w =
      need (u32_at host 1 0 args) (undefined, w)
        λ h.
          need (lookup h w.rds) (undefined, w)
            λ e.
              let w₁ = free_box host h (lookup h w.rd_event_users) e.rd w in
              (undefined, free_rd h e (free_items e.item_handles w₁))

  unfoldable pub renderer_discoverer_start : List ℕ → World → Ret × World
  renderer_discoverer_start args w =
      need (u32_at host 1 0 args) (value (flag false), w)
        λ h.
          need (rd_of h w) (value (flag false), w)
            λ rd.
              call Fn.renderer_discoverer_start (renderer_discoverer rd) []
                (λ w. value (
                  flag (
                    is_zero
                      (host.ask w.trace Fn.renderer_discoverer_start (renderer_discoverer rd) []))))
                w

  unfoldable pub renderer_discoverer_stop : List ℕ → World → Ret × World
  renderer_discoverer_stop args w =
      need (u32_at host 1 0 args) (undefined, w)
        λ h.
          need (rd_of h w) (undefined, w)
            λ rd. call Fn.renderer_discoverer_stop (renderer_discoverer rd) [] (λ w. undefined) w

  -- One row for each renderer that is still there.
  item_row : ℕ → ℕ → World → List (String × Arg)
  item_row h item w =
      ("handle", num h)
      ∷ ("name", text (text_or_empty (host.ask_text w.trace Fn.renderer_item_name (renderer item))))
      ∷ ("type", text (text_or_empty (host.ask_text w.trace Fn.renderer_item_type (renderer item))))
      ∷ []

  asked : ℕ → World → World
  asked item w =
      emit (did Fn.renderer_item_type (renderer item) [])
        (emit (did Fn.renderer_item_name (renderer item) []) w)

  abbrev and_row :
      List (String × Arg) → List (List (String × Arg)) × World → List (List (String × Arg)) × World
  and_row row (rows, w) = (row ∷ rows, w)

  abbrev item_of : Option RendererItemEntry → Option ℕ
  item_of none = none
  item_of (some e) = e.item

  -- A row, if there is an item, before those of the rest.
  row_first :
      ℕ
      → Option ℕ
      → (World → List (List (String × Arg)) × World)
      → World
      → List (List (String × Arg)) × World
  unfolding item_row asked
  row_first h none rest w = rest w
  row_first h (some item) rest w = and_row (item_row h item w) (rest (asked item w))

  unfoldable pub item_rows : List ℕ → World → List (List (String × Arg)) × World
  unfolding row_first
  item_rows [] w = ([], w)
  item_rows (h ∷ hs) w = row_first h (item_of (lookup h w.renderers)) (λ u. item_rows hs u) w

  abbrev as_array : List (List (String × Arg)) × World → Ret × World
  as_array (rows, w) = (array rows, w)

  unfoldable pub renderer_discoverer_get_items : List ℕ → World → Ret × World
  unfolding item_rows
  renderer_discoverer_get_items args w =
      need (u32_at host 1 0 args) (array [], w)
        λ h. need (lookup h w.rds) (array [], w) λ e. as_array (item_rows e.item_handles w)

  unfoldable pub renderer_item_release : List ℕ → World → Ret × World
  unfolding free_item
  renderer_item_release args w =
      need (u32_at host 1 0 args) (undefined, w)
        λ h. (undefined, free_item h (lookup h w.renderers) w)
