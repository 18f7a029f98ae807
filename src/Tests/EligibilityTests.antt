-- ===== src/Tests/EligibilityTests.antt =====
-- Four members, a coin that selects two of them, and its shares.
use mathlib.Core.Path.{subst}
use arladkr_practicaladkr.Prelude.{
  ℕ, ◌≡◌, refl, sym, ap, ◌∙◌, arith, true, false, some, List, [], ◌∷◌, ◌-◌, length, replicate,
  some-inj,
}
use arladkr_practicaladkr.Prelude.Int.{ℤ, pos}
use arladkr_practicaladkr.Prelude.Bytes.{Bytes, beq}
use arladkr_practicaladkr.Prelude.Members.{member}
use arladkr_practicaladkr.Prelude.Entries.{entry, put}
use arladkr_practicaladkr.Util.{hash_bytes}
use arladkr_practicaladkr.Wire.{
  put_be, be_value, read_full, read_uint32, read_bytes, write_uint32, write_bytes, confirm,
}
use arladkr_practicaladkr.Wire.Fields.{read_domain, read_digest, read_last}
use arladkr_practicaladkr.Roster.{
  insert, sorted_copy, unique_after, unique, sorted_unique, encode_ints,
}
use arladkr_practicaladkr.Roster.Sorted.{member-sorted_unique}
use arladkr_practicaladkr.Apdb.Holder.{Signer}
use arladkr_practicaladkr.Eligibility.{
  coin_domain, sample_size, digest_lt, insert_key, sort_keys, key_of, with_keys, proposer_set,
  coin_input, coin_share_bytes, decode_coin_share, Service, start_coin, recover_coin, open_share,
  keep_share,
}
use arladkr_practicaladkr.Eligibility.Sizes.{Least, sample_size-Least}
use arladkr_practicaladkr.Eligibility.Selection.{Selected, proposer_set-Selected}
use arladkr_practicaladkr.Eligibility.Coin.{
  IsCoinScheme, Step, started, opened, after, after_all, enough_shares_make_coin,
}
use arladkr_practicaladkr.Tests.{get}

sample_size-Least_example :
    (c : ℕ) × (sample_size 4 1 1 10 ≡ some c) × Least 4 1 (record { num = 1; den = 10 }) 1 c
sample_size-Least_example = sample_size-Least 4 1 1 10 (omega arith) (omega arith) (omega arith)

-- A stand-in for SHA-256 that keeps the last byte, and so the identifier, in front of 31 zeros.
abbrev last_byte : Bytes → ℕ
last_byte [] = 0
last_byte (x ∷ []) = x
last_byte (x ∷ y ∷ ys) = last_byte (y ∷ ys)

abbrev last_hash : Bytes → Bytes
last_hash x = (255 - last_byte x) ∷ replicate 31 0

abbrev roster : List ℤ
roster = pos 3 ∷ pos 1 ∷ pos 4 ∷ pos 2 ∷ []

abbrev chosen : List ℤ
chosen = pos 4 ∷ pos 3 ∷ []

chosen_by_coin : proposer_set last_hash roster 2 1 (9 ∷ []) ≡ some chosen
unfolding proposer_set sort_keys insert_key digest_lt with_keys key_of hash_bytes coin_domain
    encode_ints put_be sorted_unique unique unique_after sorted_copy insert
chosen_by_coin = refl

abbrev reordered : List ℤ
reordered = pos 1 ∷ pos 2 ∷ pos 3 ∷ pos 4 ∷ []

sorted_same : sorted_unique reordered ≡ sorted_unique roster
unfolding sorted_unique unique unique_after sorted_copy insert
sorted_same = refl

same_members : (a : ℤ) → member a reordered ≡ member a roster
same_members a =
    sym (member-sorted_unique a reordered)
    ∙ ap (member a) sorted_same
    ∙ member-sorted_unique a roster

proposer_set-Selected_example :
    Selected last_hash (9 ∷ []) roster 2 chosen
    × (proposer_set last_hash reordered 2 1 (9 ∷ []) ≡ some chosen)
proposer_set-Selected_example =
    proposer_set-Selected last_hash (9 ∷ []) roster reordered 2 1 chosen chosen_by_coin refl
      same_members

abbrev signer : Signer
signer = record {
  has_apdb_role = false;
  member_order = roster;
  threshold = 2;
  can_sign = λ m. true;
  sign_share = λ m domain digest. some (7 ∷ []);
  verify_share = λ m domain digest share. beq share (7 ∷ []);
  recover = λ domain digest shares. some (1 ∷ []);
  verify_recovered = λ domain digest coin. beq coin (1 ∷ []);
}

signer-IsCoinScheme : IsCoinScheme signer
unfolding beq
signer-IsCoinScheme = record {
  signs = λ m digest share h. go share h;
  recovers = λ digest shares many distinct valid. (1 ∷ [], refl, refl);
}
  where
    go : (share : Bytes) → some (7 ∷ []) ≡ some share → beq share (7 ∷ []) ≡ true
    go share h = subst (λ s. beq s (7 ∷ []) ≡ true) (some-inj (7 ∷ []) share h) refl

abbrev service : Service
service = record {
  sid = 1 ∷ [];
  epoch = pos 1;
  local_node = pos 1;
  old_members = roster;
  eligibility_shares = [];
}

abbrev share_wire : Bytes
share_wire = get (coin_share_bytes (coin_input last_hash (1 ∷ []) (pos 1)) (7 ∷ []))

-- The node starts, and the share of member 2 comes in twice.
abbrev steps : List Step
steps = started 3 ∷ opened (pos 2) share_wire ∷ opened (pos 2) share_wire ∷ []

two_kept : length (after_all last_hash signer steps service).eligibility_shares ≡ 2
unfolding after_all after start_coin open_share keep_share decode_coin_share coin_share_bytes
    coin_input hash_bytes coin_domain encode_ints put_be be_value read_full read_uint32 read_bytes
    write_uint32 write_bytes confirm read_domain read_digest read_last beq member entry put
two_kept = refl

enough_shares_make_coin_example :
    (coin : Bytes) × (recover_coin last_hash signer (after_all last_hash signer steps service)
      ≡ some coin)
    × (beq coin (1 ∷ []) ≡ true)
enough_shares_make_coin_example =
    enough_shares_make_coin last_hash signer steps service signer-IsCoinScheme refl
      (omega (arith, two_kept))
