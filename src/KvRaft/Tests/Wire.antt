-- ===== src/KvRaft/Tests/Wire.antt =====
-- A way to write values as numbers that can be read back, for the codecs of the runs.
use distributed_systems_labs.Base.{
  ℕ, zero, suc, ◌≡◌, refl, Option, none, some, List, [], ◌∷◌, arith, length,
}
use distributed_systems_labs.Raft.Types.{Bytes, Codec, LogEntry, Persisted}
use distributed_systems_labs.KvRaft.Types.{
  Text, OpType, put_op, append_op, get_op, other_op, Op, SnapshotData,
}

pub record Wire (A : Type 0) : Type 0 where
  pub emit : A → Bytes → Bytes
  pub parse : Bytes → Option (A × Bytes)
  pub parse-emit : (a : A) (rest : Bytes) → parse (emit a rest) ≡ some (a, rest)

abbrev parse_number : Bytes → Option (ℕ × Bytes)
parse_number [] = none
parse_number (b ∷ rest) = some (b, rest)

abbrev number : Wire ℕ
number = record { emit = ◌∷◌; parse = parse_number; parse-emit = λ a rest. refl }

module _ {A B : Type 0} (to : A → B) (from : B → A) (back : (a : A) → from (to a) ≡ a) where
  abbrev converted : Option (B × Bytes) → Option (A × Bytes)
  converted none = none
  converted (some (b, rest)) = some (from b, rest)

  abbrev via : Wire B → Wire A
  via w = record {
    emit = λ a. w.emit (to a);
    parse = λ bytes. converted (w.parse bytes);
    parse-emit = λ a rest. rw (w.parse-emit (to a) rest, back a) refl;
  }

module _ {A B : Type 0} (v : Wire A) (w : Wire B) where
  abbrev joined : A → Option (B × Bytes) → Option ((A × B) × Bytes)
  joined a none = none
  joined a (some (b, rest)) = some ((a, b), rest)

  abbrev second : Option (A × Bytes) → Option ((A × B) × Bytes)
  second none = none
  second (some (a, bytes)) = joined a (w.parse bytes)

  abbrev pair : Wire (A × B)
  pair = record {
    emit = λ (a, b) rest. v.emit a (w.emit b rest);
    parse = λ bytes. second (v.parse bytes);
    parse-emit = λ (a, b) rest. rw (v.parse-emit a (w.emit b rest), w.parse-emit b rest) refl;
  }

module _ {A : Type 0} (w : Wire A) where
  abbrev emit_all : List A → Bytes → Bytes
  emit_all [] rest = rest
  emit_all (a ∷ xs) rest = w.emit a (emit_all xs rest)

  abbrev consed : A → Option (List A × Bytes) → Option (List A × Bytes)
  consed a none = none
  consed a (some (xs, rest)) = some (a ∷ xs, rest)

  abbrev parse_all : ℕ → Bytes → Option (List A × Bytes)
  parse_all zero bytes = some ([], bytes)
  parse_all (suc n) bytes = elim (w.parse bytes) [
    | none ↦ none
    | some (a, rest) ↦ consed a (parse_all n rest)
  ]

  pub parse_all-emit_all :
      (xs : List A) (rest : Bytes) → parse_all (length xs) (emit_all xs rest) ≡ some (xs, rest)
  parse_all-emit_all [] rest = refl
  parse_all-emit_all (a ∷ xs) rest =
      rw (w.parse-emit a (emit_all xs rest), parse_all-emit_all xs rest) refl

  abbrev parse_list : Bytes → Option (List A × Bytes)
  parse_list [] = none
  parse_list (n ∷ bytes) = parse_all n bytes

  abbrev list : Wire (List A)
  list = record {
    emit = λ xs rest. length xs ∷ emit_all xs rest;
    parse = parse_list;
    parse-emit = parse_all-emit_all;
  }

  abbrev whole : Option (A × Bytes) → Option A
  whole none = none
  whole (some (a, rest)) = some a

  abbrev unmarked : Bytes → Option A
  unmarked [] = none
  unmarked (b ∷ bytes) = whole (w.parse bytes)

  -- A first number makes the written value non-empty.
  abbrev codec : Codec A
  codec = record {
    encode = λ a. 1 ∷ w.emit a [];
    decode = unmarked;
    decode-encode = λ a. rw (w.parse-emit a []) refl;
    encode_nonempty = λ a. omega arith;
  }

abbrev from_type : OpType → Text
from_type put_op = 0 ∷ []
from_type append_op = 1 ∷ []
from_type get_op = 2 ∷ []
from_type (other_op name) = 3 ∷ name

abbrev to_type : Text → OpType
to_type (zero ∷ t) = put_op
to_type (suc zero ∷ t) = append_op
to_type (suc (suc zero) ∷ t) = get_op
to_type (suc (suc (suc n)) ∷ t) = other_op t
to_type [] = get_op

pub to_type-from_type : (t : OpType) → to_type (from_type t) ≡ t
to_type-from_type put_op = refl
to_type-from_type append_op = refl
to_type-from_type get_op = refl
to_type-from_type (other_op name) = refl

abbrev text : Wire Text
text = list number

abbrev op_wire : Wire Op
op_wire =
    via (λ (o : Op). (o.type', (o.req_id, (o.me, (o.key, o.value)))))
      (λ (t, (i, (m, (k, v)))). record { type' = t; req_id = i; me = m; key = k; value = v })
      (λ o. refl)
      (pair (via from_type to_type to_type-from_type text)
        (pair number (pair number (pair text text))))

abbrev entry_wire : Wire (LogEntry Op)
entry_wire =
    via (λ (e : LogEntry Op). (e.term, (e.index, e.command)))
      (λ (t, (i, c)). record { term = t; index = i; command = c }) (λ e. refl)
      (pair number (pair number op_wire))

abbrev from_vote : Option ℕ → ℕ
from_vote none = 0
from_vote (some v) = suc v

abbrev to_vote : ℕ → Option ℕ
to_vote zero = none
to_vote (suc v) = some v

pub to_vote-from_vote : (v : Option ℕ) → to_vote (from_vote v) ≡ v
to_vote-from_vote none = refl
to_vote-from_vote (some v) = refl

instance abbrev pub op_codec : Codec (Persisted Op)
op_codec = codec (
    via
      (λ (p : Persisted Op).
        (p.voted_for, (p.current_term, (p.log, (p.last_included_index, p.last_included_term)))))
      (λ (v, (t, (l, (i, j)))). record {
        voted_for = v;
        current_term = t;
        log = l;
        last_included_index = i;
        last_included_term = j;
      })
      (λ p. refl)
      (pair (via from_vote to_vote to_vote-from_vote number)
        (pair number (pair (list entry_wire) (pair number number)))))

instance abbrev pub data_codec : Codec SnapshotData
data_codec = codec (
    via (λ (d : SnapshotData). (d.store, (d.last_applied, d.last_included_index)))
      (λ (s, (l, i)). record { store = s; last_applied = l; last_included_index = i }) (λ d. refl)
      (pair (list (pair text text)) (pair (list (pair number number)) number)))
