-- ===== src/Api/Watching.antt =====
-- light_api.cpp: the watched addresses and what is known of them, and the status.
use mvclight.Base.{
  Bool, true, false, ◌&&◌, ◌||◌, not, List, [], ◌∷◌, ◌++◌, Option, none, some, leb, codes,
  if◌then◌else◌, length,
}
use mvclight.Base.Int.{ℤ, pos, ltb_ℤ, leb_ℤ}
use mvclight.Wire.{Bytes}
use mvclight.Uint256.{Uint256, get_hex, eq as text_eq}
use mvclight.Filter.{max_filter_elements}
use mvclight.State
use mvclight.Text.{to_string, to_string_ℤ}
use mvclight.WatchStore.{LevelDb, TxRecord}
use mvclight.WatchStore.Operations.{get_tx, get_txids_by_addr, clear_memory}
use mvclight.Api.{LightError, ok, param_invalid, peer_disconnected, filter_full, LightContext}

-- The first equal address goes.
unfoldable pub erase_first : Bytes → List Bytes → List Bytes
erase_first address [] = []
erase_first address (a ∷ v) = if text_eq a address then v else a ∷ erase_first address v

-- The items of a JSON list, after the first or not.
quoted : Bool → List Bytes → Bytes
quoted later [] = []
quoted later (a ∷ v) = (if later then b',' ∷ [] else []) ++ (b'"' ∷ (a ++ (b'"' ∷ quoted true v)))

truth : Bool → Bytes
truth true = codes "true"
truth false = codes "false"

module _ {S : Type 0} where
  watch_add_running : LightContext S → Bytes → LightContext S × LightError
  watch_add_running c address =
      if not c.running
      then (c, peer_disconnected)
      else (if leb max_filter_elements (length c.watch_addresses)
          then (c, filter_full)
          else (record c { watch_addresses = c.watch_addresses ++ address ∷ [] }, ok))

  unfoldable pub watch_add : LightContext S → Option Bytes → LightContext S × LightError
  unfolding watch_add_running
  watch_add c none = (c, param_invalid)
  watch_add c (some address) = watch_add_running c address

  unfoldable pub watch_remove : LightContext S → Option Bytes → LightContext S × LightError
  watch_remove c none = (c, param_invalid)
  watch_remove c (some address) =
      (record c { watch_addresses = erase_first address c.watch_addresses }, ok)

  unfoldable pub watch_list : LightContext S → Bytes
  unfolding quoted
  watch_list c = b'[' ∷ (quoted false c.watch_addresses ++ b']' ∷ [])

  unfoldable pub force_reset_chain : LevelDb S → LightContext S → LightContext S × LightError
  force_reset_chain db c = (record c { store = clear_memory db c.store }, ok)

  unfoldable pub sync_status : LightContext S → Bytes
  unfolding truth
  sync_status c =
      codes "{\"running\":"
      ++ (truth c.running
          ++ (codes ",\"peer_state\":\""
              ++ (State.to_string c.peer_conn.m_state
                  ++ (codes "\",\"watch_count\":"
                      ++ (to_string (length c.watch_addresses)
                          ++ (codes ",\"tx_count\":"
                              ++ (to_string (length c.store.memory.m_tx_store)
                                  ++ codes ",\"checkpoint_height\":0,\"start_height\":-1}")))))))

-- A record in the range of heights; a negative end is no end.
in_range : ℤ → ℤ → TxRecord → Bool
in_range from_height to_height rec =
    not (ltb_ℤ rec.height from_height || (leb_ℤ (pos 0) to_height && ltb_ℤ to_height rec.height))

item : Uint256 → TxRecord → Bytes
unfolding truth
item txid rec =
    codes "{\"txid\":\""
    ++ (get_hex txid
        ++ (codes "\",\"height\":"
            ++ (to_string_ℤ rec.height
                ++ (codes ",\"script_verified\":" ++ (truth rec.script_verified ++ codes "}")))))

found_item : ℤ → ℤ → Uint256 → Option TxRecord → Option Bytes
unfolding in_range item
found_item from_height to_height txid none = none
found_item from_height to_height txid (some rec) =
    if in_range from_height to_height rec then some (item txid rec) else none

add_item : Bool → Option Bytes → (Bool → Bytes) → Bytes
add_item first none rest = rest first
add_item first (some text) rest = (if first then [] else b',' ∷ []) ++ (text ++ rest false)

items : (Uint256 → Option TxRecord) → ℤ → ℤ → List Uint256 → Bool → Bytes
unfolding add_item found_item
items lookup from_height to_height [] first = []
items lookup from_height to_height (txid ∷ txids) first =
    add_item first (found_item from_height to_height txid (lookup txid))
      (λ later. items lookup from_height to_height txids later)

-- `mvc_light_watch_get`; `none` is the null result.
unfoldable pub watch_get :
    {S : Type 0} → LevelDb S → LightContext S → Option Bytes → ℤ → ℤ → Option Bytes
unfolding items
watch_get db c none from_height to_height = none
watch_get db c (some address) from_height to_height = some (
    b'['
    ∷ (items (get_tx db c.store) from_height to_height (get_txids_by_addr db c.store address) true
        ++ b']' ∷ []))
