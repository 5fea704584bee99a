-- ===== src/Gateway/Scope/Hidden.antt =====
-- crates/fineco-gateway/src/lib.rs: what is hidden from a channel is refused there.
use fineco_helper.Gateway.Access.{AuthChannel}
use fineco_helper.Gateway.Scope.{
  Tool, ErrorData, Gateway, contains, shown_by, refused_by, list_tools, call_tool, allowlist_for,
  request_channel,
}
use fineco_helper.Base.{
  [], ◌∷◌, none, some, true, false, ok, err, refl, String, List, Option, Bool, str_eq, ◌≡◌, ◌||◌,
  ap, ◌&&◌, eq_iff, arith, not, Result, if◌then◌else◌, sym, map_ok, ◌∙◌,
}

abbrev pub named : String → List Tool → Bool
named name [] = false
named name (tool ∷ tools) = str_eq tool.name name || named name tools

same_kept :
    (allow : List String) (a b : String) → str_eq a b ≡ true → contains allow a ≡ contains allow b
same_kept allow a b e = ap (contains allow) ((eq_iff a b).0 e)

named-shown_by_cons :
    (allow : List String) (name : String) (tool : Tool) (tools : List Tool) (same kept : Bool)
    → str_eq tool.name name ≡ same
    → contains allow tool.name ≡ kept
    → named name (shown_by (some allow) tools) ≡ named name tools && contains allow name
    → named name (shown_by (some allow) (tool ∷ tools))
      ≡ named name (tool ∷ tools) && contains allow name
named-shown_by_cons allow name tool tools true true e f ih =
    let g = same_kept allow tool.name name e in ground (arith, ih)
named-shown_by_cons allow name tool tools true false e f ih =
    let g = same_kept allow tool.name name e in ground (arith, ih)
named-shown_by_cons allow name tool tools false true e f ih = ground (arith, ih)
named-shown_by_cons allow name tool tools false false e f ih = rw (f, e) ih

named-shown_by-some :
    (allow : List String) (name : String) (tools : List Tool)
    → named name (shown_by (some allow) tools) ≡ named name tools && contains allow name
named-shown_by-some allow name [] = refl
named-shown_by-some allow name (tool ∷ tools) =
    named-shown_by_cons allow name tool tools _ _ refl refl (named-shown_by-some allow name tools)

not-not : (b : Bool) → b ≡ not (not b)
not-not true = refl
not-not false = refl

named-shown_by :
    (allow : Option (List String)) (name : String) (tools : List Tool)
    → named name (shown_by allow tools) ≡ named name tools && not (refused_by allow name)
named-shown_by none name tools = ground arith
named-shown_by (some allow) name tools =
    named-shown_by-some allow name tools
    ∙ ap (λ b. named name tools && b) (not-not (contains allow name))

shown_of :
    {E A B : Type 0} (f : A → B) (r : Result E A) (a : A) (b : B)
    → r ≡ ok a
    → map_ok f r ≡ ok b
    → f a ≡ b
shown_of f (ok x) a b e h = cc
shown_of f (err x) a b e h = absurd cc

decided :
    {A : Type 0} (found hidden : Bool) (x y : A)
    → found ≡ not hidden
    → (found ≡ false → (if hidden then x else y) ≡ x)
      × (found ≡ true → (if hidden then x else y) ≡ y)
decided found true x y e = (λ h. refl, λ h. absurd cc)
decided found false x y e = (λ h. absurd cc, λ h. refl)

module _ {Request Answer : Type 0} where
  -- A tool that the wrapped gateway lists, but that the list for a channel leaves out, is refused on
  -- that channel; a call of a tool that the list for the channel has reaches the wrapped gateway.
  pub call_tool-list_tools :
      (gateway : Gateway Request Answer) (marker : Option AuthChannel) (all shown : List Tool)
      (name : String) (request : Request)
      → gateway.list_all ≡ ok all
      → list_tools gateway marker ≡ ok shown
      → named name all ≡ true
      → (named name shown ≡ false
          → call_tool gateway marker name request ≡ err (ErrorData.invalid_params "tool not found"))
        × (named name shown ≡ true
            → call_tool gateway marker name request ≡ gateway.call name request)
  unfolding list_tools call_tool
  call_tool-list_tools gateway marker all shown name request e f n =
      let allow = allowlist_for gateway (request_channel marker) in
      let same = ap (named name) (shown_of (shown_by allow) gateway.list_all all shown e f) in
      let found : named name shown ≡ not (refused_by allow name) =
        sym same ∙ (named-shown_by allow name all ∙ ap (λ b. b && not (refused_by allow name)) n) in
      decided (named name shown) (refused_by allow name) _ _ found
