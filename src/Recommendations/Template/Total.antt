-- ===== src/Recommendations/Template/Total.antt =====
-- Which templates execute on every set of variables.
use iamzero.Prelude.{String, ◌≡◌, refl, Bool, true, false, ◌&&◌, List, [], ◌∷◌, and→both}
use iamzero.Prelude.Text.{◌<>◌}
use iamzero.Prelude.Outcome.{ok}
use iamzero.Recommendations.{Vars}
use iamzero.Recommendations.Template.{
  Node, text_node, action_node, other_node, Arg, field_node, execute, execute_node, execute_action,
}

-- Nodes that execution accepts: texts and actions of one field of one name.
abbrev one_field : List (List Arg) → Bool
one_field ((field_node (name ∷ []) ∷ []) ∷ []) = true
one_field _ = false

abbrev is_simple : Node → Bool
is_simple (text_node t) = true
is_simple (action_node p) = one_field p.cmds
is_simple other_node = false

abbrev pub are_simple : List Node → Bool
are_simple [] = true
are_simple (n ∷ ns) = is_simple n && are_simple ns

execute_action_total :
    (vars : Vars) (cmds : List (List Arg))
    → one_field cmds ≡ true
    → (s : String) × (execute_action vars cmds ≡ ok s)
unfolding execute_action
execute_action_total vars ((field_node (name ∷ []) ∷ []) ∷ []) h = (_, refl)
execute_action_total vars _ h = cc

execute_node_total :
    (vars : Vars) (n : Node) → is_simple n ≡ true → (s : String) × (execute_node vars n ≡ ok s)
unfolding execute_node
execute_node_total vars (text_node t) h = (t, refl)
execute_node_total vars (action_node p) h = execute_action_total vars p.cmds h
execute_node_total vars other_node h = cc

pub execute_total :
    (vars : Vars) (ns : List Node) → are_simple ns ≡ true → (s : String) × (execute vars ns ≡ ok s)
unfolding execute
execute_total vars [] h = ("", refl)
execute_total vars (n ∷ ns) h =
    let (hn, hs) = and→both (is_simple n) (are_simple ns) h in
    let (s, e) = execute_node_total vars n hn in
    let (t, es) = execute_total vars ns hs in (s <> t, rw (e, es) refl)
