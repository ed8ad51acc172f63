-- ===== src/Bencode/Value.antt =====
-- The values that `Unmarshal` of internal/bencode gives an `any`: an int64, a string of bytes, a
-- []any and a map[string]any. A map is a list of its entries, in no order that matters.
use go_torrent.Base.{ℕ, suc, max, if◌then◌else◌, ℤ}
use go_torrent.Bytes.{same_text, Bytes}

mutual
  pub data Value : Type 0 where
    integer : ℤ → Value
    text : Bytes → Value
    items : Values → Value
    entries : Entries → Value

  pub data Values : Type 0 where
    no_more : Values
    more : Value → Values → Values

  pub data Entries : Type 0 where
    none_left : Entries
    entry : Bytes → Value → Entries → Entries

-- `out[key] = elem`.
unfoldable pub put : Bytes → Value → Entries → Entries
put key v none_left = entry key v none_left
put key v (entry k w es) =
    let rest = put key v es in if same_text k key then entry key v es else entry k w rest

-- The levels of nesting.
unfoldable mutual
  pub depth : Value → ℕ
  depth (integer i) = 1
  depth (text s) = 1
  depth (items vs) = suc (depth_items vs)
  depth (entries es) = suc (depth_entries es)

  pub depth_items : Values → ℕ
  depth_items no_more = 0
  depth_items (more v vs) = max (depth v) (depth_items vs)

  pub depth_entries : Entries → ℕ
  depth_entries none_left = 0
  depth_entries (entry k v es) = max (depth v) (depth_entries es)
