-- ===== src/Responses/Replay.antt =====
-- Function calls across src/proxy/responses.rs: what the client is told and sends back, and what the
-- upstream is asked.
use router.Prelude.{
  ◌≡◌, refl, ap, ◌∙◌, true, List, [], ◌∷◌, none, some, ◌>>=◌, arith, if-intro, map_or-intro, map_or,
  flatten,
}
use router.Prelude.Text.{Text, codes, text_eq, text_Eq, text_eq_iff}
use router.Prelude.Map.{get, insert, get-insert}
use router.Json.{Value, str, index, set, as_str, as_array, is_text, is_object}
use router.Json.Laws.{lookup-set, is_object-set}
use router.Responses.Names.{
  NamespaceMap, flat_name, record_function, record_functions, record_tool, record_tools,
  namespaces_of, with_namespace, split_name, chat_name,
}

-- Every entry is found under the flattened name of its value.
IsFlat : NamespaceMap → Type 0
IsFlat m = (k ns n : Text) → get m k ≡ some (ns, n) → flat_name ns n ≡ k

insert-IsFlat :
    (m : NamespaceMap) (ns n : Text) → IsFlat m → IsFlat (insert m (flat_name ns n) (ns, n))
unfolding IsFlat
insert-IsFlat m ns n h k a b e =
    ground
      (arith, e, h k a b, get-insert m (flat_name ns n) k (ns, n), text_eq_iff (flat_name ns n) k)

nothing-IsFlat : IsFlat []
unfolding IsFlat get
nothing-IsFlat k ns n h = absurd (ground arith)

record_function-IsFlat :
    (m : NamespaceMap) (ns : Text) (inner : Value) → IsFlat m → IsFlat (record_function m ns inner)
unfolding record_function
record_function-IsFlat m ns inner h =
    let name = as_str (index inner (codes "name")) in
    let add = λ (n : Text). insert m (flat_name ns n) (ns, n) in
    if-intro IsFlat (is_text (index inner (codes "type")) (codes "function")) (map_or m add name) m
      (λ _. map_or-intro IsFlat m add name (λ _. h) (λ n _. insert-IsFlat m ns n h)) (λ _. h)

record_functions-IsFlat :
    (m : NamespaceMap) (ns : Text) (inner : List Value)
    → IsFlat m
    → IsFlat (record_functions m ns inner)
unfolding record_functions
record_functions-IsFlat m ns [] h = h
record_functions-IsFlat m ns (t ∷ ts) h =
    record_functions-IsFlat (record_function m ns t) ns ts (record_function-IsFlat m ns t h)

record_tool-IsFlat : (m : NamespaceMap) (t : Value) → IsFlat m → IsFlat (record_tool m t)
unfolding record_tool
record_tool-IsFlat m t h =
    let name = as_str (index t (codes "name")) in
    let tools = flatten (as_array (index t (codes "tools"))) in
    let add = λ (ns : Text). record_functions m ns tools in
    if-intro IsFlat (is_text (index t (codes "type")) (codes "namespace")) (map_or m add name) m
      (λ _. map_or-intro IsFlat m add name (λ _. h) (λ ns _. record_functions-IsFlat m ns tools h))
      (λ _. h)

record_tools-IsFlat : (m : NamespaceMap) (ts : List Value) → IsFlat m → IsFlat (record_tools m ts)
unfolding record_tools
record_tools-IsFlat m [] h = h
record_tools-IsFlat m (t ∷ ts) h =
    record_tools-IsFlat (record_tool m t) ts (record_tool-IsFlat m t h)

namespaces_of-IsFlat : (req : Value) → IsFlat (namespaces_of req)
unfolding namespaces_of
namespaces_of-IsFlat req = record_tools-IsFlat [] _ nothing-IsFlat

-- The name that a `function_call` item has upstream.
abbrev pub upstream_name : Value → Value
upstream_name item =
    chat_name (as_str (index item (codes "namespace"))) (as_str (index item (codes "name")))
      (index item (codes "name"))

upstream_name-split_name :
    (item : Value) (ns n : Text)
    → is_object item ≡ true
    → upstream_name (split_name item (ns, n)) ≡ str (flat_name ns n)
unfolding split_name index text_eq chat_name
upstream_name-split_name item ns n o =
    let inner = set item (codes "namespace") (str ns) in
    let o' : is_object inner ≡ true = rw (is_object-set item (codes "namespace") (str ns)) o in
    rw
      (
        lookup-set inner (codes "name") (codes "namespace") (str n) o',
        lookup-set inner (codes "name") (codes "name") (str n) o',
        lookup-set item (codes "namespace") (codes "namespace") (str ns) o,
      )
      refl

-- A function call keeps its name upstream: an item that the client is sent, whose namespace was
-- split off by the tools of the request, is translated back to the name that upstream gave, where
-- that item had no namespace before.
pub with_namespace-upstream_name :
    (req item : Value) (n : Text)
    → is_object item ≡ true
    → as_str (index item (codes "namespace")) ≡ none
    → index item (codes "name") ≡ str n
    → upstream_name (with_namespace item (namespaces_of req)) ≡ str n
unfolding with_namespace chat_name IsFlat
with_namespace-upstream_name req item n o none_before named =
    let hit = as_str (index item (codes "name")) >>= λ n. get (namespaces_of req) n in
    map_or-intro (λ v. upstream_name v ≡ str n) item (split_name item) hit
      (λ _. rw (none_before, named) refl)
      (λ (ns, short) e.
        upstream_name-split_name item ns short o
        ∙ ap str (namespaces_of-IsFlat req n ns short (rw named at e)))
