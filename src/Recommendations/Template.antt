-- ===== src/Recommendations/Template.antt =====
-- pkg/recommendations/json_recommendations.go: what it takes from html/template, and the name of
-- a resource that it reads from a template's variables.
-- `parse` reads texts and actions `{{ .Name }}`, and refuses any other action.
pub mod Total
pub mod Names
use Prim.Native.Char.{Char, code}
use iamzero.Prelude.{
  String, Bool, true, false, not, ◌&&◌, ◌||◌, Option, none, some, List, [], ◌∷◌, ◌++◌, leb, eqb,
  ◌==◌, if◌then◌else◌,
}
use iamzero.Prelude.Text.{◌<>◌, is_char, all_chars}
use iamzero.Prelude.Words.{join}
use iamzero.Prelude.Scan.{run_of, run_of_some}
use iamzero.Prelude.Outcome.{Outcome, ok, err, plain, and_then}
use iamzero.Recommendations.{Value, str, null, other, Vars}

-- text/template/parse: the arguments of a command, and the nodes at the top of a template.
pub data Arg : Type 0 where
  field_node : List String → Arg
  other_arg : Arg

pub record Pipe : Type 0 where
  pub decl : List String
  pub cmds : List (List Arg)

pub data Node : Type 0 where
  text_node : String → Node
  action_node : Pipe → Node
  other_node : Node

is_ident_char : Char → Bool
is_ident_char c =
    (leb b'0' (code c) && leb (code c) b'9')
    || (leb b'A' (code c) && leb (code c) b'Z')
    || (leb b'a' (code c) && leb (code c) b'z')
    || is_char b'_' c

-- The inside of an action: spaces, a dot, a name, spaces.
field_name : String → Option String
unfolding run_of run_of_some is_ident_char
field_name s = elim (run_of (is_char b' ') s).1 [
  | String.[] ↦ none
  | String.◌∷◌ c r ↦ elim (run_of_some is_ident_char r) [
    | none ↦ none
    | some (name, rest) ↦
        if is_char b'.' c && all_chars (is_char b' ') rest then some name else none
  ]
]

action_of : String → Option Node
unfolding field_name
action_of s = elim (field_name s) [
  | none ↦ none
  | some name ↦ some (action_node (record { decl = []; cmds = (field_node (name ∷ []) ∷ []) ∷ [] }))
]

with_text : String → List Node → List Node
with_text String.[] ns = ns
with_text (String.◌∷◌ c s) ns = text_node (String.◌∷◌ c s) ∷ ns

-- What has been read since the last node, in a text or in an action.
pub data Mode : Type 0 where
  in_text in_action : String → Mode

after_node : Option Node → Option (List Node) → Option (List Node)
after_node (some n) (some ns) = some (n ∷ ns)
after_node _ _ = none

parse_from : Mode → String → Option (List Node)
unfolding with_text after_node action_of
parse_from (in_text t) String.[] = some (with_text t [])
parse_from (in_text t) (String.◌∷◌ c String.[]) = some (with_text (t <> String.◌∷◌ c "") [])
parse_from (in_text t) (String.◌∷◌ c (String.◌∷◌ d s)) = elim (is_char b'{' c && is_char b'{' d) [
  | true ↦ elim (parse_from (in_action "") s) [ none ↦ none | some ns ↦ some (with_text t ns) ]
  | false ↦ parse_from (in_text (t <> String.◌∷◌ c "")) (String.◌∷◌ d s)
]
parse_from (in_action t) String.[] = none
parse_from (in_action t) (String.◌∷◌ c String.[]) = none
parse_from (in_action t) (String.◌∷◌ c (String.◌∷◌ d s)) = elim (is_char b'}' c && is_char b'}' d) [
  | true ↦ after_node (action_of t) (parse_from (in_text "") s)
  | false ↦ parse_from (in_action (t <> String.◌∷◌ c "")) (String.◌∷◌ d s)
]

parsed : Option (List Node) → Outcome (List Node)
parsed none = err (plain "template: policy: unexpected action")
parsed (some ns) = ok ns

-- template.New("policy").Parse
unfoldable pub parse : String → Outcome (List Node)
unfolding parse_from parsed
parse s = parsed (parse_from (in_text "") s)

-- vars[k], and vars[k] = v
unfoldable pub lookup : String → Vars → Option Value
lookup k [] = none
lookup k ((j, v) ∷ vars) = if j == k then some v else lookup k vars

unfoldable pub insert : String → Value → Vars → Vars
insert k v [] = (k, v) ∷ []
insert k v ((j, w) ∷ vars) = if j == k then (k, v) ∷ vars else (j, w) ∷ insert k v vars

-- The table by which html/template escapes a value in the text of a document.
escape_char : Char → String
escape_char c =
    if is_char 0 c
    then "�"
    else if is_char 34 c
    then "&#34;"
    else if is_char b'&' c
    then "&amp;"
    else if is_char 39 c
    then "&#39;"
    else if is_char b'+' c
    then "&#43;"
    else if is_char b'<' c
    then "&lt;"
    else if is_char b'>' c
    then "&gt;"
    else String.◌∷◌ c ""

unfoldable pub html_escape : String → String
unfolding escape_char
html_escape String.[] = ""
html_escape (String.◌∷◌ c s) = escape_char c <> html_escape s

-- A key that is missing, and nil, print as nothing.
printed : Option Value → String
printed none = ""
printed (some (str s)) = s
printed (some null) = ""
printed (some (other s)) = s

-- Of an action, what a template of this program holds: one field of one name.
pub execute_action : Vars → List (List Arg) → Outcome String
unfolding html_escape printed lookup
execute_action vars ((field_node (name ∷ []) ∷ []) ∷ []) =
    ok (html_escape (printed (lookup name vars)))
execute_action vars cmds = err (plain "template: policy: unexpected pipeline")

pub execute_node : Vars → Node → Outcome String
unfolding execute_action
execute_node vars (text_node t) = ok t
execute_node vars (action_node p) = execute_action vars p.cmds
execute_node vars other_node = err (plain "template: policy: unexpected node")

-- tmpl.Execute
unfoldable pub execute : Vars → List Node → Outcome String
unfolding execute_node
execute vars [] = ok ""
execute vars (n ∷ ns) =
    and_then (execute_node vars n) λ s. and_then (execute vars ns) λ rest. ok (s <> rest)

-- The commands of one action: the names read before one that is not supported, if there is one.
command_vars : List (List Arg) → List String × Bool
command_vars [] = ([], true)
command_vars ((field_node (name ∷ []) ∷ []) ∷ cmds) =
    let rest = command_vars cmds in (name ∷ rest.0, rest.1)
command_vars (cmd ∷ cmds) = ([], false)

-- The variables of one node, and whether the node is supported.
node_vars : Node → List String × Bool
unfolding command_vars
node_vars (text_node t) = ([], true)
node_vars (action_node p) = elim p.decl [ [] ↦ command_vars p.cmds | d ∷ ds ↦ ([], false) ]
node_vars other_node = ([], false)

-- The names, and the nodes that are reported as not supported.
unfoldable pub required_template_vars : List Node → List String × List Node
unfolding node_vars
required_template_vars [] = ([], [])
required_template_vars (n ∷ ns) =
    let found = node_vars n in
    let rest = required_template_vars ns in
    (found.0 ++ rest.0, if found.1 then rest.1 else n ∷ rest.1)

unfoldable pub is_scope_var : String → Bool
is_scope_var v = v == "Account" || v == "Region"

add_text : Option Value → List String → List String
add_text (some (str s)) vals = s ∷ vals
add_text o vals = vals

resource_vals : Vars → List String → List String
unfolding is_scope_var add_text lookup
resource_vals vars [] = []
resource_vals vars (v ∷ vs) =
    let rest = resource_vals vars vs in
    if is_scope_var v then rest else add_text (lookup v vars) rest

named_resource : List String → Outcome String
unfolding join
named_resource [] = err (plain "resource could not be parsed")
named_resource (s ∷ ss) = ok (join "/" (s ∷ ss))

unfoldable pub parse_resource_from_template : List Node → Vars → Outcome String
unfolding required_template_vars resource_vals named_resource
parse_resource_from_template t vars =
    named_resource (resource_vals vars (required_template_vars t).0)
