-- ===== src/Setup/Confirmation/Examples.antt =====
-- The theorems about deck_setup_confirmation.cpp at concrete inputs.
use mathlib.Core.Path.{subst}
use mathlib.Core.Option.{some-injective}
use s3_rlcd_deck.Base.{
  ℕ, zero, suc, ◌+◌, ◌%◌, ◌≤◌, ◌<◌, ◌≡◌, ◌↔◌, refl, false, some, List, [], ◌∷◌, ◌++◌, length,
  replicate, arith,
}
use s3_rlcd_deck.Ota.Digest.{AllBytes, digest_equal}
use s3_rlcd_deck.Setup.Confirmation.{
  Options, Confirmation, confirmed, strnlen, all_token_bytes, valid_token, tokens_equal, hex_text,
  create, issue, consume,
}
use s3_rlcd_deck.Setup.Confirmation.Laws.{RandomLaw}
use s3_rlcd_deck.Setup.Confirmation.History.{
  Call, issues, consumes, run, in_force, Confirms, confirmations, grants, consume-run-Confirms,
  confirmations-create,
}

-- A source of random bytes that counts.
abbrev counting : Options ℕ
counting = record { lifetime_ms = 100; random = λ c n. (c + 1, some (replicate n (c % 256))) }

replicate-AllBytes : (n c : ℕ) → c < 256 → AllBytes (replicate n c)
replicate-AllBytes zero c h = tt
replicate-AllBytes (suc n) c h = (h, replicate-AllBytes n c h)

length-replicate : (n c : ℕ) → length (replicate n c) ≡ n
length-replicate zero c = refl
length-replicate (suc n) c = omega (arith, length-replicate n c)

counting-RandomLaw : RandomLaw counting
counting-RandomLaw c n bytes e =
    let same = some-injective (replicate n (c % 256)) bytes e in
    (
      subst (λ l. AllBytes l) same (replicate-AllBytes n (c % 256) (omega arith)),
      subst (λ l. length l ≡ n) same (length-replicate n (c % 256)),
    )

abbrev new_confirmation : Confirmation ℕ
new_confirmation = record {
  context = 171;
  options = counting;
  token = replicate 17 0;
  session_id = 0;
  issued_at_ms = 0;
  issued = false;
}

opened : create 171 counting ≡ some new_confirmation
unfolding create
opened = refl

-- "abababababababab".
abbrev secret : List ℕ
secret = 97 ∷ 98 ∷ 97 ∷ 98 ∷ 97 ∷ 98 ∷ 97 ∷ 98 ∷ 97 ∷ 98 ∷ 97 ∷ 98 ∷ 97 ∷ 98 ∷ 97 ∷ 98 ∷ []

abbrev confirmation_calls : List Call
confirmation_calls = issues 6 1_000 ∷ []

consume-run-Confirms_example :
    ((consume (run new_confirmation confirmation_calls) 6 (some secret) 1_050).1 ≡ confirmed)
    ↔ Confirms 100
        (some (record { session_id = 6; issued_at_ms = 1_000; token = secret ++ (0 ∷ []) }))
        6
        secret
        1_050
unfolding in_force issue hex_text
consume-run-Confirms_example =
    consume-run-Confirms 171 counting new_confirmation confirmation_calls 6 1_050 secret
      counting-RandomLaw opened (omega arith)

abbrev used_twice : List Call
used_twice = issues 6 1_000 ∷ consumes 6 (some secret) 1_050 ∷ consumes 6 (some secret) 1_060 ∷ []

confirmed_once : confirmations new_confirmation used_twice ≡ 1
unfolding confirmations issue consume valid_token tokens_equal strnlen all_token_bytes hex_text
    digest_equal
confirmed_once = refl

confirmations-create_example :
    confirmations new_confirmation used_twice ≤ grants new_confirmation used_twice
confirmations-create_example = confirmations-create 171 counting new_confirmation used_twice opened
