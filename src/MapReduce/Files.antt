-- ===== src/MapReduce/Files.antt =====
-- The files that the library writes, as a function from a name to the contents, and the loops of
-- src/mapreduce that read or write streams of key/value pairs.
use mathlib.Core.List.{append_assoc}
use distributed_systems_labs.Base.{
  ℕ, zero, suc, ◌<◌, ◌≡◌, refl, sym, ap, ◌∙◌, false, Option, none, some, List, [], ◌∷◌, ◌++◌,
  length, Text, same_text, same_text_refl, if◌then◌else◌, Run, ok, panic, ◌>>=◌, arith,
  length-append,
}
use distributed_systems_labs.MapReduce.Types.{KeyValue, item, eof, bad, Json}

abbrev pub Files : Type 0
Files = Text → Option Text

-- The file with that name, new or truncated, with these contents.
unfoldable pub save : Files → Text → Text → Files
save fs name contents = λ n. if same_text n name then some contents else fs n

-- os.Remove
unfoldable pub delete : Files → Text → Files
delete fs name = λ n. if same_text n name then none else fs n

-- What is in an open file.
abbrev pub contents : Option Text → Text
contents none = []
contents (some text) = text

-- A write at the end of an open file.
unfoldable pub append : Files → Text → Text → Files
unfolding save
append fs name text = save fs name (contents (fs name) ++ text)

pub save-same : (fs : Files) (name text : Text) → save fs name text name ≡ some text
unfolding save
save-same fs name text = rw (same_text_refl name) refl

pub save-other :
    (fs : Files) (name text other : Text)
    → same_text other name ≡ false
    → save fs name text other ≡ fs other
unfolding save
save-other fs name text other h = rw h refl

module _ (json : Json) where
  -- The values of a list, one after the other.
  abbrev pub encode_all : List KeyValue → Text
  encode_all [] = []
  encode_all (kv ∷ kvs) = json.encode kv ++ encode_all kvs

  -- The loop over dec.Decode, up to io.EOF; another error is fatal. A value takes up at least one
  -- character, so the fuel is enough if it is more than the length of the text.
  unfoldable pub decode_loop : ℕ → Text → Run (List KeyValue)
  decode_loop zero text = panic
  decode_loop (suc fuel) text = elim (json.decode text) [
    | item kv rest ↦ (decode_loop fuel rest >>= λ kvs. ok (kv ∷ kvs))
    | eof ↦ ok []
    | bad ↦ panic
  ]

  unfoldable pub decode_all : Text → Run (List KeyValue)
  unfolding decode_loop
  decode_all text = decode_loop (suc (length text)) text

  decode_loop-encode_all :
      (kvs : List KeyValue) (fuel : ℕ)
      → length (encode_all kvs) < fuel
      → decode_loop fuel (encode_all kvs) ≡ ok kvs
  unfolding decode_loop
  decode_loop-encode_all kvs zero h = absurd (omega arith)
  decode_loop-encode_all [] (suc fuel) h = rw (json.decode-empty, decode_loop) refl
  decode_loop-encode_all (kv ∷ kvs) (suc fuel) h =
      let less : length (encode_all kvs) < fuel =
        omega (arith, json.encode_nonempty kv, length-append (json.encode kv) (encode_all kvs)) in
      rw (json.decode-encode kv (encode_all kvs), decode_loop)
        (rw (decode_loop-encode_all kvs fuel less) refl)

  -- What was encoded, one value after the other, is what the decoding loop reads.
  pub decode_all-encode_all : (kvs : List KeyValue) → decode_all (encode_all kvs) ≡ ok kvs
  unfolding decode_all
  decode_all-encode_all kvs =
      decode_loop-encode_all kvs (suc (length (encode_all kvs))) (omega arith)

  pub encode_all-append :
      (xs ys : List KeyValue) → encode_all (xs ++ ys) ≡ encode_all xs ++ encode_all ys
  encode_all-append [] ys = refl
  encode_all-append (x ∷ xs) ys =
      ap (λ t. json.encode x ++ t) (encode_all-append xs ys)
      ∙ sym (append_assoc (json.encode x) (encode_all xs) (encode_all ys))
