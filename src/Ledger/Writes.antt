-- ===== src/Ledger/Writes.antt =====
-- What the writers of casper/contract/src do to the dictionaries of an initialised instance.
use Prim.Native.Nat.{pred}
use devxdao_m.Common.{ℕ, suc, ◌≡◌, Option, none, some, arith, inl, inr, Option-cases}
use devxdao_m.Common.Text.{Text}
use devxdao_m.Runtime.{Dict, DictCell, dictionary_put, stored_dict, ok, unwrap_or_revert_with}
use devxdao_m.Contract.Error.{NftCoreError}
use devxdao_m.Contract.Utils.Reads.{
  get_dictionary_value_from_key, upsert_dictionary_value_from_key, as_is,
}
use devxdao_m.Contract.Counts.{next_count, increment_count, decrement_count}

pub get-as_is :
    {A : Type 0} (d : Dict A) (k : Text)
    → get_dictionary_value_from_key as_is (stored_dict d) k ≡ ok (d k)
get-as_is d k = ground arith

pub upsert-as_is :
    {A : Type 0} (d : Dict A) (k : Text) (v : A)
    → upsert_dictionary_value_from_key as_is (stored_dict d) k v
      ≡ ok (stored_dict (dictionary_put d k v))
upsert-as_is d k v = ground arith

-- A write at another type may be refused, but does nothing else.
pub upsert-eq-ok :
    {A V : Type 0} (decode : V → Option A) (d : Dict V) (k : Text) (v : V) {c : DictCell V}
    → upsert_dictionary_value_from_key decode (stored_dict d) k v ≡ ok c
    → c ≡ stored_dict (dictionary_put d k v)
upsert-eq-ok decode d k v h = ground arith

pub increment_count-stored_dict :
    (c : Dict ℕ) (k : Text)
    → increment_count (stored_dict c) k ≡ ok (stored_dict (dictionary_put c k (next_count (c k))))
unfolding increment_count
increment_count-stored_dict c k = ground arith

pub decrement_count-eq-ok :
    (c : Dict ℕ) (k : Text) {c' : DictCell ℕ}
    → decrement_count (stored_dict c) k ≡ ok c'
    → (n : ℕ) × (c k ≡ some (suc n)) × (c' ≡ stored_dict (dictionary_put c k n))
unfolding decrement_count
decrement_count-eq-ok c k h = elim (Option-cases (c k)) [
  | inl none_there ↦ ground arith
  | inr (n, e) ↦ (pred n, ground arith, ground arith)
]

pub unwrap_or_revert_with-eq-ok :
    {A : Type 0} (o : Option A) (e : NftCoreError) {a : A}
    → unwrap_or_revert_with o e ≡ ok a
    → o ≡ some a
unwrap_or_revert_with-eq-ok none e h = cc
unwrap_or_revert_with-eq-ok (some a) e h = ground arith
