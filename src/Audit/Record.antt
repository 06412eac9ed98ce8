-- ===== src/Audit/Record.antt =====
-- `Record`, `Canonical`, `ComputeHash` and `Seal` of internal/audit/chain.go. A text is a list of
-- code points, and a time counts nanoseconds since the Unix epoch. A detail map is the list of its
-- entries, in any order.
pub mod Injective
use cupel.Base.{
  ℕ, ◌+◌, ◌*◌, ◌/◌, ◌%◌, ◌^◌, ◌≡◌, ◌≢◌, Bool, true, false, ◌&&◌, ◌||◌, Option, none, some, List, [],
  ◌∷◌, ◌++◌, ltb, ◌==◌, String, if◌then◌else◌, codes_before, codes,
}
use cupel.Audit.Decimal.{format_uint}
use cupel.Audit.Escape.{escape}

-- `uint64` arithmetic wraps.
abbrev pub u64 : ℕ → ℕ
u64 n = n % 2 ^ 64

pub record Record : Type 0 where
  pub seq : ℕ
  pub time : ℕ
  pub type : String
  pub subject : String
  pub actor : String
  pub detail : List (String × String)
  pub prev_hash : String
  pub hash : String

-- The cryptographic hash, in hexadecimal, and the time format of the standard library.
pub record Encoding : Type 0 where
  pub sha256_hex : List ℕ → String
  pub rfc3339 : ℕ → List ℕ

abbrev pub genesis_hash : String
genesis_hash = "0000000000000000000000000000000000000000000000000000000000000000"

-- Entries are compared by the order of `sort.Strings`.
insert_key : String × String → List (String × String) → List (String × String)
insert_key (k, v) [] = (k, v) ∷ []
insert_key (k, v) ((j, w) ∷ rest) =
    let later = insert_key (k, v) rest in
    if codes_before (codes k) (codes j) then (k, v) ∷ (j, w) ∷ rest else (j, w) ∷ later

-- The entries of a detail map in the order of their keys.
unfoldable pub sort_keys : List (String × String) → List (String × String)
unfolding codes_before insert_key
sort_keys [] = []
sort_keys (e ∷ es) = insert_key e (sort_keys es)

detail_text : List (String × String) → List ℕ
detail_text [] = []
detail_text ((k, v) ∷ rest) = escape k ++ b':' ∷ (escape v ++ b';' ∷ detail_text rest)

unfoldable pub canonical : Encoding → Record → List ℕ
unfolding detail_text sort_keys format_uint escape
canonical enc r =
    codes "seq="
    ++ (format_uint r.seq
        ++ (codes "\ntime="
            ++ (enc.rfc3339 (r.time / 10 ^ 9)
                ++ (codes "\ntype="
                    ++ (codes r.type
                        ++ (codes "\nsubject="
                            ++ (escape r.subject
                                ++ (codes "\nactor="
                                    ++ (escape r.actor
                                        ++ (codes "\nprev="
                                            ++ (codes r.prev_hash
                                                ++ (codes "\ndetail="
                                                    ++ (detail_text (sort_keys r.detail)
                                                        ++ codes "\n")))))))))))))

unfoldable pub compute_hash : Encoding → Record → String
compute_hash enc r = enc.sha256_hex (canonical enc r)

-- The fields that `Seal` sets before it hashes; the time is truncated to the second.
link : Record → Option Record → Record
link r none = record r { seq = 1; prev_hash = genesis_hash; time = r.time / 10 ^ 9 * 10 ^ 9 }
link r (some prev) = record r {
  seq = u64 (prev.seq + 1);
  prev_hash = prev.hash;
  time = r.time / 10 ^ 9 * 10 ^ 9;
}

unfoldable pub seal : Encoding → Record → Option Record → Record
unfolding link
seal enc r prev = let linked = link r prev in record linked { hash = compute_hash enc linked }
