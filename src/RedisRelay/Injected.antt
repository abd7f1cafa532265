-- ===== src/RedisRelay/Injected.antt =====
-- The entries that messages become in the stream of a room (engine/history.go), and the messages that they are
-- read as.
use stream_relay.Prelude.{
  ℕ, zero, suc, ◌<◌, ◌≤◌, ◌≡◌, ◌≢◌, refl, ap, ap₂, ◌⊎◌, true, some, List, [], ◌∷◌, ◌++◌, Bytes,
  codes, str_eq, false, arith, Map, length, take, Distinct, Bytes-discrete,
}
use stream_relay.Decimal.{int64_bound, pos, format_int}
use stream_relay.Protocol.{Error, failure, Result, ok, err}
use stream_relay.Types.{Message}
use stream_relay.Resp.{Value}
use stream_relay.Streams.{StreamEntry, is_error_reply, text_of}
use stream_relay.Streams.Commands.{Do, field_arguments, unless_error}
use stream_relay.Streams.Replies.{bulk, array_of, entry_values, AllDistinct}
use stream_relay.RedisRelay.{stream_fields, time_or}
use stream_relay.RedisRelay.Entries.{parse_stream_entry-stream_fields}
use stream_relay.RedisRelay.Recovery.{parse_each}
use stream_relay.RedisRelay.History.{prepared}

-- No answer to a command: an error of the client, or a reply that is an error.
abbrev pub IsRefused : Result Value → Type 0
IsRefused (err e) = Unit
IsRefused (ok reply) = is_error_reply reply ≡ true

-- `XRANGE` from `-` to `+`.
abbrev pub range_command : Bytes → ℕ → List Bytes
range_command key limit =
    codes "XRANGE" ∷ key ∷ codes "-" ∷ codes "+" ∷ codes "COUNT" ∷ format_int (pos (suc limit)) ∷ []

-- What Redis documents of its streams: unless it refuses the command, `XADD` with the id `*` answers an id
-- and puts the entry behind the others under it, and `XRANGE` from `-` to `+` answers the first entries, as
-- many as an int64 asks for.
pub record KeepsStreams {S : Type 0} (do_command : Do S) (contents : S → Bytes → List StreamEntry)
    : Type 0 where
  pub adds :
      (key : Bytes) (fields : Map Bytes) (s : S)
      → let (next, response) =
          do_command (codes "XADD" ∷ key ∷ codes "*" ∷ field_arguments fields) s in
        IsRefused response
        ⊎ ((id : Bytes) × (response ≡ ok (bulk id))
            × (contents next key ≡ contents s key ++ record { id = id; fields = fields } ∷ []))
  pub ranges :
      (key : Bytes) (n : ℕ) (s : S)
      → suc n < int64_bound
      → let (_, response) = do_command (range_command key n) s in
        IsRefused response
        ⊎ (response ≡ ok (array_of (entry_values (take (suc n) (contents s key)))))

-- The ids of entries.
abbrev pub ids_of : List StreamEntry → List Bytes
ids_of [] = []
ids_of (entry ∷ entries) = entry.id ∷ ids_of entries

-- The entries that messages become, under the ids that they get.
abbrev pub entries_for : (Map Bytes → Bytes) → List Bytes → List Message → List StreamEntry
entries_for encode (id ∷ ids) (msg ∷ msgs) =
    record { id = id; fields = stream_fields encode msg } ∷ entries_for encode ids msgs
entries_for encode _ _ = []

-- The messages under these ids.
abbrev pub numbered : List Bytes → List Message → List Message
numbered (id ∷ ids) (msg ∷ msgs) = record msg { id = id } ∷ numbered ids msgs
numbered _ _ = []

abbrev pub all_prepared : ℕ → Bytes → List Message → List Message
all_prepared now id [] = []
all_prepared now id (msg ∷ msgs) = prepared now id msg ∷ all_prepared now id msgs

-- A message that can be written and read: its metadata come back from their JSON, which is not empty, and
-- its time is an int64.
abbrev pub IsStorable : (Map Bytes → Bytes) → (Bytes → Map Bytes) → ℕ → Message → Type 0
IsStorable encode decode now msg =
    (decode (encode msg.metadata) ≡ msg.metadata)
    × (encode msg.metadata ≢ [])
    × (t : ℕ) × (time_or now msg.timestamp ≡ some t)
    × (t < int64_bound)

abbrev pub AllStorable : (Map Bytes → Bytes) → (Bytes → Map Bytes) → ℕ → List Message → Type 0
AllStorable encode decode now [] = Unit
AllStorable encode decode now (msg ∷ msgs) =
    IsStorable encode decode now msg × AllStorable encode decode now msgs

pub unless_error-IsRefused :
    {A : Type 0} (name : Bytes) (f : Value → Result A) (response : Result Value)
    → IsRefused response
    → (e : Error) × (unless_error name f response ≡ err e)
unfolding unless_error
unless_error-IsRefused name f (err e) refused = (e, refl)
unless_error-IsRefused name f (ok reply) refused =
    (failure (name ++ codes " failed: " ++ text_of reply), rw refused refl)

pub ids_of-entries_for :
    (encode : Map Bytes → Bytes) (ids : List Bytes) (msgs : List Message)
    → length ids ≡ length msgs
    → ids_of (entries_for encode ids msgs) ≡ ids
ids_of-entries_for encode [] [] same = refl
ids_of-entries_for encode [] (msg ∷ msgs) same = absurd (omega (arith, same))
ids_of-entries_for encode (id ∷ ids) [] same = absurd (omega (arith, same))
ids_of-entries_for encode (id ∷ ids) (msg ∷ msgs) same =
    ap (λ (is : List Bytes). id ∷ is) (ids_of-entries_for encode ids msgs (omega (arith, same)))

pub length-all_prepared :
    (now : ℕ) (id : Bytes) (msgs : List Message) → length (all_prepared now id msgs) ≡ length msgs
length-all_prepared now id [] = refl
length-all_prepared now id (msg ∷ msgs) = ap suc (length-all_prepared now id msgs)

pub take_all : {A : Type 0} (n : ℕ) (xs : List A) → length xs ≤ n → take n xs ≡ xs
take_all zero [] h = refl
take_all (suc n) [] h = refl
take_all zero (x ∷ xs) h = absurd (omega (arith, h))
take_all (suc n) (x ∷ xs) h = let ih = take_all n xs (omega (arith, h)) in rw ih refl

pub length-entries_for :
    (encode : Map Bytes → Bytes) (now : ℕ) (id : Bytes) (ids : List Bytes) (msgs : List Message)
    → length (entries_for encode ids (all_prepared now id msgs)) ≤ length msgs
length-entries_for encode now id [] msgs = omega arith
length-entries_for encode now id (i ∷ ids) [] = omega arith
length-entries_for encode now id (i ∷ ids) (msg ∷ msgs) =
    let ih = length-entries_for encode now id ids msgs in omega (arith, ih)

apart : (a b : Bytes) → str_eq a b ≡ false → a ≢ b
apart a b h = λ e. absurd (ground (arith, h, e))

stream_fields-Distinct :
    (encode : Map Bytes → Bytes) (msg : Message) → Distinct (stream_fields encode msg)
unfolding stream_fields Bytes-discrete
stream_fields-Distinct encode msg = (
  (apart _ _ refl, (apart _ _ refl, (apart _ _ refl, (apart _ _ refl, tt)))),
  (
    (apart _ _ refl, (apart _ _ refl, (apart _ _ refl, tt))),
    ((apart _ _ refl, (apart _ _ refl, tt)), ((apart _ _ refl, tt), (tt, tt))),
  ),
)

pub entries_for-AllDistinct :
    (encode : Map Bytes → Bytes) (ids : List Bytes) (msgs : List Message)
    → AllDistinct (entries_for encode ids msgs)
entries_for-AllDistinct encode [] msgs = tt
entries_for-AllDistinct encode (id ∷ ids) [] = tt
entries_for-AllDistinct encode (id ∷ ids) (msg ∷ msgs) =
    (stream_fields-Distinct encode msg, entries_for-AllDistinct encode ids msgs)

-- The entries of storable messages are read as these messages.
pub parse_each-entries_for :
    (encode : Map Bytes → Bytes) (decode : Bytes → Map Bytes) (now : ℕ) (id : Bytes)
    (ids : List Bytes) (msgs : List Message)
    → AllStorable encode decode now msgs
    → parse_each decode id (entries_for encode ids (all_prepared now id msgs))
      ≡ numbered ids (all_prepared now id msgs)
unfolding parse_each
parse_each-entries_for encode decode now id [] msgs h = refl
parse_each-entries_for encode decode now id (i ∷ ids) [] h = refl
parse_each-entries_for encode decode now id (i ∷ ids) (msg ∷ msgs)
      ((undoes, nonempty, t, stamped, small), h) =
    let ready = prepared now id msg in
    let first =
      parse_stream_entry-stream_fields encode decode ready t i id undoes nonempty stamped small in
    let rest = parse_each-entries_for encode decode now id ids msgs h in
    ap₂ (λ (m : Message) (ms : List Message). m ∷ ms) first rest
