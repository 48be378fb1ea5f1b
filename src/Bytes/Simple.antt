-- ===== src/Bytes/Simple.antt =====
-- A concrete encoding that meets the contract of `casper_types::bytesrepr`: a text or a map stands
-- behind its length, a Boolean is 0 or 1.
use mathlib.Core.List.{append_assoc}
use devxdao_m.Common.{
  ℕ, zero, suc, ◌+◌, ◌<◌, ◌^◌, ◌≡◌, refl, sym, ap, ◌∙◌, Bool, true, false, [], ◌∷◌, ◌++◌, List, ltb,
  ◌==◌, if◌then◌else◌, arith,
}
use devxdao_m.Common.Lists.{length}
use devxdao_m.Common.Text.{Text}
use devxdao_m.Runtime.Bytes.{
  Bytes, BytesResult, done, failed, ◌>>=◌, Codec, IsLawful, Ascends, Always, Bytesrepr,
  IsDocumented,
}
use devxdao_m.Bytes.Schema.{>>=-elim, done-injective, length-append}

-- The first `n` bytes and the rest.
unfoldable pub take_bytes : ℕ → Bytes → BytesResult (Bytes × Bytes)
take_bytes zero bytes = done ([], bytes)
take_bytes (suc n) [] = failed 0
take_bytes (suc n) (x ∷ bytes) = do (taken, rest) ← take_bytes n bytes; done (x ∷ taken, rest)

unfoldable pub read_text : Bytes → BytesResult (Text × Bytes)
unfolding take_bytes
read_text [] = failed 0
read_text (n ∷ bytes) = take_bytes n bytes

unfoldable pub read_bool : Bytes → BytesResult (Bool × Bytes)
read_bool [] = failed 0
read_bool (x ∷ bytes) = if x == 0 then done (false, bytes) else done (true, bytes)

abbrev pub write_bool : Bool → Bytes
write_bool false = 0 ∷ []
write_bool true = 1 ∷ []

abbrev pub texts : Codec Text
texts = record {
  to_bytes = λ t. done (length t ∷ t);
  serialized_length = λ t. suc (length t);
  from_bytes = read_text;
}

abbrev pub bools : Codec Bool
bools = record {
  to_bytes = λ x. done (write_bool x);
  serialized_length = λ x. 1;
  from_bytes = read_bool;
}

module _ {V : Type 0} (c : Codec V) where
  unfoldable pub write_pairs : List (Text × V) → BytesResult Bytes
  write_pairs [] = done []
  write_pairs ((k, v) ∷ m) = do
    value ← c.to_bytes v
    pairs ← write_pairs m
    done ((length k ∷ k) ++ (value ++ pairs))

  unfoldable pub read_pairs : ℕ → Bytes → BytesResult (List (Text × V) × Bytes)
  unfolding read_text
  read_pairs zero bytes = done ([], bytes)
  read_pairs (suc n) bytes = do
    (k, bytes') ← read_text bytes
    (v, bytes'') ← c.from_bytes bytes'
    (m, rest) ← read_pairs n bytes''
    done ((k, v) ∷ m, rest)

  unfoldable pub pairs_length : List (Text × V) → ℕ
  pairs_length [] = 0
  pairs_length ((k, v) ∷ m) = suc (length k) + c.serialized_length v + pairs_length m

  unfoldable pub write_map : List (Text × V) → BytesResult Bytes
  unfolding write_pairs
  write_map m = do pairs ← write_pairs m; done (length m ∷ pairs)

  unfoldable pub read_map : Bytes → BytesResult (List (Text × V) × Bytes)
  unfolding read_pairs
  read_map [] = failed 0
  read_map (n ∷ bytes) = read_pairs n bytes

  unfoldable pub map_length : List (Text × V) → ℕ
  unfolding pairs_length
  map_length m = suc (pairs_length m)

  abbrev pub maps : Codec (List (Text × V))
  maps = record { to_bytes = write_map; serialized_length = map_length; from_bytes = read_map }

unfoldable pub empty_buffer : ℕ → BytesResult Bytes
empty_buffer size = if ltb size (2 ^ 32) then done [] else failed 1

abbrev pub simple : Bytesrepr
simple = record { string = texts; bool = bools; btree_map = maps; allocate_buffer = empty_buffer }

take_bytes-append : (xs rest : Bytes) → take_bytes (length xs) (xs ++ rest) ≡ done (xs, rest)
unfolding take_bytes
take_bytes-append [] rest = refl
take_bytes-append (x ∷ xs) rest = rw (take_bytes-append xs rest) refl

read_text-append : (t rest : Bytes) → read_text ((length t ∷ t) ++ rest) ≡ done (t, rest)
unfolding read_text
read_text-append t rest = take_bytes-append t rest

-- The key of a pair, with what follows it.
read_text-pair :
    (t value pairs rest : Bytes)
    → read_text (((length t ∷ t) ++ (value ++ pairs)) ++ rest) ≡ done (t, value ++ (pairs ++ rest))
unfolding read_text
read_text-pair t value pairs rest =
    rw (append_assoc t (value ++ pairs) rest)
      (rw (append_assoc value pairs rest) (take_bytes-append t (value ++ (pairs ++ rest))))

texts-IsLawful : IsLawful Always texts
texts-IsLawful = record {
  from_bytes-to_bytes =
      λ t bytes rest always wrote. rw (sym (done-injective wrote)) (read_text-append t rest);
  serialized_length-to_bytes = λ t bytes always wrote fits. ap length (done-injective wrote);
}

read_bool-write_bool : (x : Bool) (rest : Bytes) → read_bool (write_bool x ++ rest) ≡ done (x, rest)
unfolding read_bool
read_bool-write_bool true rest = refl
read_bool-write_bool false rest = refl

length-write_bool : (x : Bool) → 1 ≡ length (write_bool x)
length-write_bool true = refl
length-write_bool false = refl

bools-IsLawful : IsLawful Always bools
bools-IsLawful = record {
  from_bytes-to_bytes =
      λ x bytes rest always wrote. rw (sym (done-injective wrote)) (read_bool-write_bool x rest);
  serialized_length-to_bytes =
      λ x bytes always wrote fits. length-write_bool x ∙ ap length (done-injective wrote);
}

-- What the bytes of a pair and of the pairs behind it are made of.
record Joined {V : Type 0} (c : Codec V) (k : Text) (v : V) (m : List (Text × V)) (bytes : Bytes)
    : Type 0 where
  value : Bytes
  pairs : Bytes
  wrote_value : c.to_bytes v ≡ done value
  wrote_pairs : write_pairs c m ≡ done pairs
  joined : bytes ≡ (length k ∷ k) ++ (value ++ pairs)

module _ {V : Type 0} (c : Codec V) (lawful : IsLawful Always c) where
  write_pairs-Joined :
      (k : Text) (v : V) (m : List (Text × V)) (bytes : Bytes)
      → write_pairs c ((k, v) ∷ m) ≡ done bytes
      → Joined c k v m bytes
  unfolding write_pairs
  write_pairs-Joined k v m bytes wrote = >>=-elim (c.to_bytes v) _ wrote λ value q p.
      >>=-elim (write_pairs c m) _ p λ pairs q' p'. record {
        value = value;
        pairs = pairs;
        wrote_value = q;
        wrote_pairs = q';
        joined = sym (done-injective p');
      }

  read_pairs-write_pairs :
      (m : List (Text × V)) (bytes rest : Bytes)
      → write_pairs c m ≡ done bytes
      → read_pairs c (length m) (bytes ++ rest) ≡ done (m, rest)
  unfolding write_pairs read_pairs
  read_pairs-write_pairs [] bytes rest wrote = rw (sym (done-injective wrote)) refl
  read_pairs-write_pairs ((k, v) ∷ m) bytes rest wrote =
      let j = write_pairs-Joined k v m bytes wrote in
      rw j.joined (
        rw (read_text-pair k j.value j.pairs rest) (
          rw (lawful.from_bytes-to_bytes v j.value (j.pairs ++ rest) tt j.wrote_value)
            (rw (read_pairs-write_pairs m j.pairs rest j.wrote_pairs) refl)))

  pairs_length-write_pairs :
      (m : List (Text × V)) (bytes : Bytes)
      → write_pairs c m ≡ done bytes
      → length bytes < 2 ^ 32
      → pairs_length c m ≡ length bytes
  unfolding write_pairs pairs_length
  pairs_length-write_pairs [] bytes wrote fits = ap length (done-injective wrote)
  pairs_length-write_pairs ((k, v) ∷ m) bytes wrote fits =
      let j = write_pairs-Joined k v m bytes wrote in
      let total : length bytes ≡ suc (length k) + (length j.value + length j.pairs) =
        ap length j.joined
        ∙ length-append (length k ∷ k) (j.value ++ j.pairs)
        ∙ ap (λ (t : ℕ). suc (length k) + t) (length-append j.value j.pairs) in
      let same_value : c.serialized_length v ≡ length j.value =
        lawful.serialized_length-to_bytes v j.value tt j.wrote_value (omega arith) in
      let same_pairs : pairs_length c m ≡ length j.pairs =
        pairs_length-write_pairs m j.pairs j.wrote_pairs (omega arith) in
      omega arith

  write_map-pairs :
      (m : List (Text × V)) (bytes : Bytes)
      → write_map c m ≡ done bytes
      → (pairs : Bytes) × (write_pairs c m ≡ done pairs) × (bytes ≡ length m ∷ pairs)
  unfolding write_map
  write_map-pairs m bytes wrote =
      >>=-elim (write_pairs c m) _ wrote λ pairs q p. (pairs, q, sym (done-injective p))

  maps-IsLawful : IsLawful Ascends (maps c)
  unfolding read_map map_length
  maps-IsLawful = record {
    from_bytes-to_bytes = λ m bytes rest ascends wrote.
        let (pairs, q, e) = write_map-pairs m bytes wrote in
        rw e (read_pairs-write_pairs m pairs rest q);
    serialized_length-to_bytes = λ m bytes ascends wrote fits.
        let (pairs, q, e) = write_map-pairs m bytes wrote in
        let total : length bytes ≡ suc (length pairs) = ap length e in
        ap suc (pairs_length-write_pairs m pairs q (omega arith)) ∙ sym total;
  }

empty_buffer-empty : (size : ℕ) (buffer : Bytes) → empty_buffer size ≡ done buffer → buffer ≡ []
unfolding empty_buffer
empty_buffer-empty size buffer given = ground arith

pub simple-IsDocumented : IsDocumented simple
simple-IsDocumented = record {
  string-IsLawful = texts-IsLawful;
  bool-IsLawful = bools-IsLawful;
  btree_map-IsLawful = λ c lawful. maps-IsLawful c lawful;
  allocate_buffer-empty = empty_buffer-empty;
}
