-- ===== src/Balances/Moves.antt =====
-- How a holding changes when one token's owner or mark changes.
use devxdao_m.Common.{ℕ, suc, ◌+◌, ◌<◌, ◌≡◌, ◌≢◌, sym, none, some, arith}
use devxdao_m.Common.Text.{Text, text_eq}
use devxdao_m.Common.Decimal.{to_string, text_eq-to_string_ne}
use devxdao_m.Common.Count.{count_below, count_below_cong, bit, count_below_move}
use devxdao_m.Runtime.{Key, Host, Dict, dictionary_put, dictionary_put_self, dictionary_put_ne, ok}
use devxdao_m.Contract.Utils.Tokens.{get_owned_tokens_dictionary_item_key}
use devxdao_m.Balances.Defs.{has_item_key, is_live}

pub has_item_key_lem :
    (h : Host) (key : Key) (k : Text) {item_key : Text}
    → get_owned_tokens_dictionary_item_key h key ≡ ok item_key
    → has_item_key h k key ≡ text_eq item_key k
has_item_key_lem h key k e = ground arith

-- Two entries at different numbers.
pub put-to_string_ne :
    {A : Type 0} (d : Dict A) (i j : ℕ) (v : A)
    → j ≢ i
    → dictionary_put d (to_string i) v (to_string j) ≡ d (to_string j)
put-to_string_ne d i j v ne =
    dictionary_put_ne d (to_string i) (to_string j) v (text_eq-to_string_ne i j (λ e. ne (sym e)))

module _ (h : Host) (owners : Dict Key) (burnt : Dict (Unit {0})) (n i : ℕ) (k : Text) where
  -- A mark on token `i` takes it from its owner's holding.
  pub holding_mark :
      {key : Key} {item_key : Text}
      → i < n
      → owners (to_string i) ≡ some key
      → burnt (to_string i) ≡ none
      → get_owned_tokens_dictionary_item_key h key ≡ ok item_key
      → count_below n (is_live h owners (dictionary_put burnt (to_string i) tt) k)
          + bit (text_eq item_key k)
        ≡ count_below n (is_live h owners burnt k)
  holding_mark {key} {item_key} lt owned unburnt keyed = ground (
    arith,
    count_below_move n i (is_live h owners burnt k)
        (is_live h owners (dictionary_put burnt (to_string i) tt) k) lt
        (λ j ne. ground (arith, put-to_string_ne burnt i j tt ne)),
    dictionary_put_self burnt (to_string i) tt,
    has_item_key_lem h key k keyed,
  )

  -- A new owner of token `i` takes it over from the old one.
  pub holding_reassign :
      {from : Key} (target : Key) {from_item target_item : Text}
      → i < n
      → owners (to_string i) ≡ some from
      → burnt (to_string i) ≡ none
      → get_owned_tokens_dictionary_item_key h from ≡ ok from_item
      → get_owned_tokens_dictionary_item_key h target ≡ ok target_item
      → count_below n (is_live h (dictionary_put owners (to_string i) target) burnt k)
          + bit (text_eq from_item k)
        ≡ count_below n (is_live h owners burnt k) + bit (text_eq target_item k)
  holding_reassign {from} target {from_item} {target_item} lt owned unburnt keyed_from
        keyed_target =
      ground (
        arith,
        count_below_move n i (is_live h owners burnt k)
            (is_live h (dictionary_put owners (to_string i) target) burnt k) lt
            (λ j ne. ground (arith, put-to_string_ne owners i j target ne)),
        dictionary_put_self owners (to_string i) target,
        has_item_key_lem h from k keyed_from,
        has_item_key_lem h target k keyed_target,
      )

-- The next token joins its owner's holding.
pub holding_mint :
    (h : Host) (owners : Dict Key) (burnt : Dict (Unit {0})) (n : ℕ) (k : Text) (key : Key)
    {item_key : Text}
    → burnt (to_string n) ≡ none
    → get_owned_tokens_dictionary_item_key h key ≡ ok item_key
    → count_below (suc n) (is_live h (dictionary_put owners (to_string n) key) burnt k)
      ≡ count_below n (is_live h owners burnt k) + bit (text_eq item_key k)
unfolding count_below
holding_mint h owners burnt n k key {item_key} unburnt keyed = ground (
  arith,
  count_below_cong n (is_live h (dictionary_put owners (to_string n) key) burnt k)
      (is_live h owners burnt k)
      (λ j lt. ground (arith, put-to_string_ne owners n j key (omega arith))),
  dictionary_put_self owners (to_string n) key,
  has_item_key_lem h key k keyed,
)
