-- ===== src/Business/QueryText.antt =====
-- `parse_query` reads back a query that was written as `?key=value&key=value`.
use micro_business_server.Base.{
  ℕ, zero, suc, ◌+◌, ◌<◌, false, List, [], ◌∷◌, ◌++◌, none, ◌≡◌, refl, ap, ◌∙◌, arith, length, take,
  drop, length-append, All,
}
use micro_business_server.Base.Map.{Map, assign, text_key}
use micro_business_server.Base.Positions.{take-front, drop_past}
use micro_business_server.Base.Search.{find_first-append}
use micro_business_server.Base.Text.{Bytes, find_first}
use micro_business_server.Business.Request.{is_equals, is_ampersand, query_loop, parse_query}

-- The pairs behind the first one, each with `&` before it, behind the first one.
pub query_text : Bytes × Bytes → List (Bytes × Bytes) → Bytes
query_text (key, value) [] = key ++ b'=' ∷ value
query_text (key, value) (pair ∷ pairs) = key ++ b'=' ∷ (value ++ b'&' ∷ query_text pair pairs)

pub assign_all : Bytes × Bytes → List (Bytes × Bytes) → Map Bytes Bytes → Map Bytes Bytes
assign_all (key, value) [] m = assign key value m
assign_all (key, value) (pair ∷ pairs) m = assign_all pair pairs (assign key value m)

-- No `=` in the key, no `&` in the value.
pub record IsPair (pair : Bytes × Bytes) : Type 0 where
  pub key : All (λ c. is_equals c ≡ false) pair.0
  pub value : find_first is_ampersand pair.1 ≡ none
  pub bytes : All (λ c. is_ampersand c ≡ false) pair.1

query_loop_last :
    (fuel : ℕ) (s key value : Bytes) (m : Map Bytes Bytes)
    → s ≡ key ++ b'=' ∷ value
    → IsPair (key, value)
    → query_loop (suc fuel) s m ≡ assign key value m
unfolding query_loop
query_loop_last fuel [] [] value m e p = cc
query_loop_last fuel [] (x ∷ key) value m e p = cc
query_loop_last fuel (c ∷ s) key value m e p =
    let here =
      ap (find_first is_equals) e ∙ find_first-append is_equals key b'=' value p.key refl in
    let behind = ap (drop (length key + 1)) e ∙ drop_past key b'=' value (length key + 1) refl in
    let front = ap (take (length key)) e ∙ take-front key (b'=' ∷ value) (length key) refl in
    rw (query_loop, here, behind, p.value, front, behind)

query_loop_more :
    (fuel : ℕ) (s key value rest : Bytes) (m : Map Bytes Bytes)
    → s ≡ key ++ b'=' ∷ (value ++ b'&' ∷ rest)
    → IsPair (key, value)
    → query_loop (suc fuel) s m ≡ query_loop fuel rest (assign key value m)
unfolding query_loop
query_loop_more fuel [] [] value rest m e p = cc
query_loop_more fuel [] (x ∷ key) value rest m e p = cc
query_loop_more fuel (c ∷ s) key value rest m e p =
    let tail : Bytes = value ++ b'&' ∷ rest in
    let here = ap (find_first is_equals) e ∙ find_first-append is_equals key b'=' tail p.key refl in
    let behind = ap (drop (length key + 1)) e ∙ drop_past key b'=' tail (length key + 1) refl in
    let front = ap (take (length key)) e ∙ take-front key (b'=' ∷ tail) (length key) refl in
    rw (
      query_loop,
      here,
      behind,
      find_first-append is_ampersand value b'&' rest p.bytes refl,
      front,
      behind,
      drop_past value b'&' rest (length value + 1) refl,
      take-front value (b'&' ∷ rest) (length value) refl,
    )

query_loop-query_text :
    (fuel : ℕ) (pair : Bytes × Bytes) (pairs : List (Bytes × Bytes)) (m : Map Bytes Bytes)
    → IsPair pair
    → All IsPair pairs
    → length pairs < fuel
    → query_loop fuel (query_text pair pairs) m ≡ assign_all pair pairs m
unfolding query_text assign_all
query_loop-query_text zero pair pairs m p ps h = absurd (omega arith)
query_loop-query_text (suc fuel) (key, value) [] m p ps h =
    query_loop_last fuel _ key value m refl p
query_loop-query_text (suc fuel) (key, value) (pair ∷ pairs) m p ps h =
    query_loop_more fuel _ key value (query_text pair pairs) m refl p
    ∙ query_loop-query_text fuel pair pairs (assign key value m) ps.0 ps.1 (omega arith)

length-query_text :
    (pair : Bytes × Bytes) (pairs : List (Bytes × Bytes))
    → length pairs < length (query_text pair pairs)
unfolding query_text
length-query_text (key, value) [] = omega (arith, length-append key (b'=' ∷ value))
length-query_text (key, value) (pair ∷ pairs) = omega (
  arith,
  length-append key (b'=' ∷ (value ++ b'&' ∷ query_text pair pairs)),
  length-append value (b'&' ∷ query_text pair pairs),
  length-query_text pair pairs,
)

-- A query `?key=value&…` with no `=` in a key and no `&` in a value is read back as its pairs, in
-- their order, so the last value of a key is the one that counts.
pub parse_query-query_text :
    (pair : Bytes × Bytes) (pairs : List (Bytes × Bytes)) (m : Map Bytes Bytes)
    → IsPair pair
    → All IsPair pairs
    → parse_query (b'?' ∷ query_text pair pairs) m ≡ assign_all pair pairs m
unfolding parse_query
parse_query-query_text pair pairs m p ps =
    query_loop-query_text (suc (length (query_text pair pairs))) pair pairs m p ps
      (omega (arith, length-query_text pair pairs))
