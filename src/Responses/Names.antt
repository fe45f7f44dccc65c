-- ===== src/Responses/Names.antt =====
-- The tool namespaces of src/proxy/responses.rs, which Chat Completions does not have.
use router.Prelude.{List, [], ◌∷◌, ◌++◌, Option, some, ◌>>=◌, if◌then◌else◌, flatten, map_or}
use router.Prelude.Text.{Text, codes, text_Eq}
use router.Prelude.Map.{Map, get, insert}
use router.Json.{Value, str, index, set, as_str, as_array, is_text, lookup}

abbrev pub NamespaceMap : Type 0
NamespaceMap = Map Text (Text × Text)

unfoldable pub flat_name : Text → Text → Text
flat_name ns name = ns ++ codes "__" ++ name

-- One member of a namespace, all of them, one tool, all of them.
unfoldable pub record_function : NamespaceMap → Text → Value → NamespaceMap
record_function m ns inner =
    if is_text (index inner (codes "type")) (codes "function")
    then map_or m (λ n. insert m (flat_name ns n) (ns, n)) (as_str (index inner (codes "name")))
    else m

unfoldable pub record_functions : NamespaceMap → Text → List Value → NamespaceMap
record_functions m ns [] = m
record_functions m ns (inner ∷ rest) = record_functions (record_function m ns inner) ns rest

unfoldable pub record_tool : NamespaceMap → Value → NamespaceMap
record_tool m t =
    if is_text (index t (codes "type")) (codes "namespace")
    then map_or m (λ ns. record_functions m ns (flatten (as_array (index t (codes "tools")))))
        (as_str (index t (codes "name")))
    else m

unfoldable pub record_tools : NamespaceMap → List Value → NamespaceMap
record_tools m [] = m
record_tools m (t ∷ ts) = record_tools (record_tool m t) ts

unfoldable pub namespaces_of : Value → NamespaceMap
namespaces_of req = record_tools [] (flatten (lookup req (codes "tools") >>= λ t. as_array t))

unfoldable pub split_name : Value → Text × Text → Value
split_name item (ns, name) = set (set item (codes "namespace") (str ns)) (codes "name") (str name)

unfoldable pub with_namespace : Value → NamespaceMap → Value
with_namespace item m =
    map_or item (split_name item) (as_str (index item (codes "name")) >>= λ n. get m n)

-- The chat name of a `function_call` item, of a tool or of a tool choice, from its namespace and name.
unfoldable pub chat_name : Option Text → Option Text → Value → Value
chat_name (some ns) (some n) name = str (flat_name ns n)
chat_name _ _ name = name
