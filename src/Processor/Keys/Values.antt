-- ===== src/Processor/Keys/Values.antt =====
-- What the rules of a map give together.
use kuberbac.Prelude.{
  ◌≡◌, refl, ◌∙◌, sym, ap, ◌&&◌, Option, none, some, List, [], ◌∷◌, arith, Str, ◌==◌, ==_iff, any,
  any-map, any_cong, contains,
}
use kuberbac.GoMap.{GoMap, lookup, keys, Occasion, Range, IsRange}
use kuberbac.GoMap.Laws.{contains-keys, contains-range, lookup_of_has}
use kuberbac.Rbac.{PolicyRule}
use kuberbac.Processor.Targets.{Target, gives}
use kuberbac.Processor.Keys.{key_of, IsKeyable}
use kuberbac.Processor.RuleMap.{rule_at, verbs_at, values, or_zero}
use kuberbac.Processor.RuleMap.Laws.{IsRuleMap, IsSingle, gives-IsSingle}

module _ (m : GoMap PolicyRule) (h : IsRuleMap m) (t : Target) (k : IsKeyable t) (v : Str) where
  -- What stands at a key.
  gives-entry :
      (j : Str) (o : Option PolicyRule)
      → lookup j m ≡ o
      → gives t v (or_zero o) ≡ (j == key_of t && contains (or_zero o).verbs v)
  unfolding contains
  gives-entry j none e = ground arith
  gives-entry j (some rule) e =
      let keyed = h j rule e in
      let single_rule : IsSingle rule = record {
        target = keyed.target;
        verbs = rule.verbs;
        keyable = keyed.keyable;
        shape = keyed.shape;
      } in
      gives-IsSingle single_rule t v k
      ∙ ap (λ j'. j' == key_of t && contains rule.verbs v) (sym keyed.key)

  any-at_key :
      (js : List Str)
      → any (λ j. j == key_of t && contains (verbs_at m j) v) js
        ≡ (contains js (key_of t) && contains (verbs_at m (key_of t)) v)
  unfolding any contains
  any-at_key [] = refl
  any-at_key (j ∷ js) = ground (arith, ==_iff j (key_of t), any-at_key js)

  -- The rules of the map give a verb on a target exactly when it stands at the target's key.
  pub any-values :
      {range : Range} (c : IsRange range) (o : Occasion)
      → any (gives t v) (values range o m) ≡ contains (verbs_at m (key_of t)) v
  unfolding contains
  any-values {range} c o =
      any-map (gives t v) (rule_at m) (range o (keys m))
      ∙ any_cong _ _ (range o (keys m)) (λ j. gives-entry j (lookup j m) refl)
      ∙ any-at_key (range o (keys m))
      ∙ ground (
        arith,
        contains-range c o (keys m) (key_of t),
        contains-keys m (key_of t),
        lookup_of_has m (key_of t),
      )
