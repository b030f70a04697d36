-- ===== src/Checkpoints/Tools.antt =====
-- Tool executions in a store: `save_tool_execution` and `load_tool_execution` of
-- src/axiom/runtime/checkpoints.py.
use axiom_agent.Prelude.{
  ℕ, String, ◌≡◌, ◌≢◌, ap, ◌∙◌, Option, none, some, arith, str_eq, eq_iff, eq_refl, Bool-cases,
  Option-cases, inl, inr, ◌⊎◌,
}
use axiom_agent.Dict.{lookup, lookup-insert}
use axiom_agent.Models.{ToolExecutionRecord, to_dict, from_dict}
use axiom_agent.Checkpoints.{
  Store, ok, err, arguments_changed, hash_differs, save_tool_execution, load_tool_execution,
}

module _ {Body Tool State : Type 0} where
  -- The stored hash of an invocation's arguments.
  abbrev pub stored_hash : String → Store Body Tool State → Option String
  stored_hash k s = elim (lookup k s.tool_executions) [
    | none ↦ none
    | some row ↦ some row.arguments_hash
  ]

  -- A save either is refused, because the invocation was stored with other arguments, and changes
  -- nothing; or it is accepted, where the invocation was not stored or was stored with the same
  -- arguments, and the next load returns what was saved, as it is read from its row.
  pub save_tool_execution_outcome :
      (now : ℕ) (r : ToolExecutionRecord Tool) (s : Store Body Tool State)
      → let (result, s') = save_tool_execution now r s in
        ((result ≡ err arguments_changed)
          × (s' ≡ s)
          × ((hash : String) × (stored_hash r.invocation_id s ≡ some hash)
              × (hash ≢ r.arguments_hash)))
        ⊎ ((result ≡ ok (record r { updated_at = now }))
            × ((stored_hash r.invocation_id s ≡ none)
                ⊎ (stored_hash r.invocation_id s ≡ some r.arguments_hash))
            × (load_tool_execution r.invocation_id s'
                ≡ some (from_dict (to_dict (record r { updated_at = now })))))
  unfolding save_tool_execution load_tool_execution
  save_tool_execution_outcome now r s =
      let stored = lookup r.invocation_id s.tool_executions in
      let row = to_dict (record r { updated_at = now }) in
      elim (Bool-cases (hash_differs stored r.arguments_hash)) [
        | inl differs ↦ elim (Option-cases stored) [
          | inl absent ↦ absurd (ground (arith, differs, absent))
          | inr (old, there) ↦ inl (
            ground (arith, differs),
            ground (arith, differs),
            (
              old.arguments_hash,
              ground (arith, there),
              (λ same.
                  ground (arith, differs, there, eq_iff old.arguments_hash r.arguments_hash, same)),
            ),
          )
        ]
        | inr agrees ↦ inr (
          ground (arith, agrees),
          (elim (Option-cases stored) [
            | inl absent ↦ inl (ground (arith, absent))
            | inr (old, there) ↦
                let same : old.arguments_hash ≡ r.arguments_hash =
                  ground (arith, agrees, there, eq_iff old.arguments_hash r.arguments_hash) in
                inr (ground (arith, there, same))
          ]),
          ground (
            arith,
            agrees,
            lookup-insert r.invocation_id r.invocation_id row s.tool_executions,
            eq_refl r.invocation_id,
          ),
        )
      ]

  -- Once an invocation was stored, the hash of its arguments stays, whatever is saved under whatever id.
  pub save_tool_execution-hash :
      (now : ℕ) (r : ToolExecutionRecord Tool) (s : Store Body Tool State) (k hash : String)
      → stored_hash k s ≡ some hash
      → stored_hash k (save_tool_execution now r s).1 ≡ some hash
  unfolding save_tool_execution to_dict
  save_tool_execution-hash now r s k hash e =
      let row = to_dict (record r { updated_at = now }) in
      let put = lookup-insert k r.invocation_id row s.tool_executions in
      elim (Bool-cases (str_eq r.invocation_id k)) [
        | inr other ↦ ground (arith, e, put, other)
        | inl here ↦ elim (Option-cases (lookup k s.tool_executions)) [
          | inl absent ↦ absurd (ground (arith, e, absent))
          | inr (old, there) ↦
              let at_id : lookup r.invocation_id s.tool_executions ≡ some old =
                ap (λ (n : String). lookup n s.tool_executions) ((eq_iff r.invocation_id k).0 here)
                ∙ there in
              ground (arith, e, there, at_id, here, put, eq_iff old.arguments_hash r.arguments_hash)
        ]
      ]
