-- ===== src/Streams/Replies.antt =====
-- The replies of a server that keeps streams, and how redis/stream.go reads them.
use stream_relay.Prelude.{
  ◌≡◌, ◌≢◌, refl, sym, true, false, List, [], ◌∷◌, ◌++◌, Bytes, arith, Map, Lacks, Distinct, insert,
  append_assoc, append-nil,
}
use stream_relay.Decimal.{pos}
use stream_relay.Protocol.{ok}
use stream_relay.Resp
use stream_relay.Resp.{
  Value, value, Values, nil, cons, bulk_string, array, as_string, as_array, as_map, is_even,
  pairs_of,
}
use stream_relay.Streams.{StreamEntry, parse_single_entry, parse_each_entry, parse_entries}

abbrev pub bulk : Bytes → Value
bulk text = value bulk_string text (pos 0) nil false false

abbrev pub array_of : Values → Value
array_of vs = value array [] (pos 0) vs false false

-- The fields of an entry, one after the other.
abbrev pub field_values : Map Bytes → Values
field_values [] = nil
field_values ((k, v) ∷ m) = cons (bulk k) (cons (bulk v) (field_values m))

abbrev pub entry_value : StreamEntry → Value
entry_value entry =
    array_of (cons (bulk entry.id) (cons (array_of (field_values entry.fields)) nil))

abbrev pub entry_values : List StreamEntry → Values
entry_values [] = nil
entry_values (entry ∷ entries) = cons (entry_value entry) (entry_values entries)

-- No entry names a field twice.
abbrev pub AllDistinct : List StreamEntry → Type 0
AllDistinct [] = Unit
AllDistinct (entry ∷ entries) = Distinct entry.fields × AllDistinct entries

-- No key of the second map is in the first.
abbrev AllLack : Map Bytes → Map Bytes → Type 0
AllLack m [] = Unit
AllLack m ((k, v) ∷ n) = Lacks k m × AllLack m n

insert_of_Lacks : (k v : Bytes) (m : Map Bytes) → Lacks k m → insert k v m ≡ m ++ (k, v) ∷ []
unfolding insert
insert_of_Lacks k v [] l = refl
insert_of_Lacks k v ((j, w) ∷ m) (differs, l) = let ih = insert_of_Lacks k v m l in ground arith

Lacks-append : (j k v : Bytes) (m : Map Bytes) → Lacks j m → j ≢ k → Lacks j (m ++ (k, v) ∷ [])
Lacks-append j k v [] l h = (h, tt)
Lacks-append j k v ((i, w) ∷ m) (differs, l) h = (differs, Lacks-append j k v m l h)

AllLack-append :
    (m : Map Bytes) (k v : Bytes) (n : Map Bytes)
    → AllLack m n
    → Lacks k n
    → AllLack (m ++ (k, v) ∷ []) n
AllLack-append m k v [] a l = tt
AllLack-append m k v ((j, w) ∷ n) (free, a) (differs, l) =
    (Lacks-append j k v m free λ e. differs (sym e), AllLack-append m k v n a l)

empty-AllLack : (n : Map Bytes) → AllLack [] n
empty-AllLack [] = tt
empty-AllLack ((k, v) ∷ n) = (tt, empty-AllLack n)

is_even-field_values : (m : Map Bytes) → is_even (field_values m) ≡ true
unfolding is_even
is_even-field_values [] = refl
is_even-field_values ((k, v) ∷ m) = let ih = is_even-field_values m in rw ih refl

pairs_of-field_values :
    (m acc : Map Bytes)
    → Distinct m
    → AllLack acc m
    → pairs_of (field_values m) acc ≡ Resp.ok (acc ++ m)
unfolding pairs_of as_string
pairs_of-field_values [] acc d a = rw (append-nil acc) refl
pairs_of-field_values ((k, v) ∷ m) acc (l, d) (free, a) =
    let ih = pairs_of-field_values m (acc ++ (k, v) ∷ []) d (AllLack-append acc k v m a l) in
    rw (insert_of_Lacks k v acc free, ih, append_assoc acc ((k, v) ∷ []) m) refl

parse_single_entry-value :
    (entry : StreamEntry)
    → Distinct entry.fields
    → parse_single_entry (entry_value entry) ≡ ok entry
unfolding parse_single_entry as_array as_string as_map
parse_single_entry-value entry d =
    rw
      (
        is_even-field_values entry.fields,
        pairs_of-field_values entry.fields [] d (empty-AllLack entry.fields),
      )
      refl

parse_each_entry-values :
    (entries : List StreamEntry)
    → AllDistinct entries
    → parse_each_entry (entry_values entries) ≡ ok entries
unfolding parse_each_entry
parse_each_entry-values [] d = refl
parse_each_entry-values (entry ∷ entries) (d, ds) =
    rw (parse_each_entry, parse_single_entry-value entry d, parse_each_entry-values entries ds) refl

-- Entries that a server sends are parsed as they are, if none names a field twice.
pub parse_entries-values :
    (entries : List StreamEntry)
    → AllDistinct entries
    → parse_entries (array_of (entry_values entries)) ≡ ok entries
unfolding parse_entries as_array
parse_entries-values entries d = parse_each_entry-values entries d
