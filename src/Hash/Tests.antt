-- ===== src/Hash/Tests.antt =====
-- The theorem on the hash at a name.
use token_dance_chat.Base.{◌+◌, ◌*◌, ◌%◌, ◌≤◌, ◌≡◌, ◌⊎◌, lit, length, arith}
use token_dance_chat.Hash.{word, half, hash_string, horner, hash_string_lem}

hash_string_lem_example :
    ((hash_string (lit "bob") % word ≡ horner 0 (lit "bob"))
      ⊎ ((hash_string (lit "bob") + horner 0 (lit "bob")) % word ≡ 0))
    × (hash_string (lit "bob") ≤ length (lit "bob") * (half + 65536))
hash_string_lem_example =
    hash_string_lem (lit "bob") (omega arith, (omega arith, (omega arith, tt)))
