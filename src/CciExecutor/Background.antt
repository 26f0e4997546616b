-- ===== src/CciExecutor/Background.antt =====
-- opencxl/cxl/component/cci_executor.py: a command in the background, from the request that submits it to
-- its result, whatever else is asked of the executor in the meantime.
use opencxl_core.Prelude.{
  ℕ, zero, suc, ◌+◌, ◌≤◌, ◌≡◌, ◌⊎◌, inl, inr, refl, sym, subst, arith, true, false, Option, none,
  some, List, [], ◌∷◌, length, Result, ok, err, ◌>>◌, guard, value_error, Bool, leb,
}
use opencxl_core.CciExecutor.{
  CciExecutor, CciCommand, CciRequest, CciResponse, Work, background, foreground, respond, busy,
  background_command_started, invalid_extent_list, find_command, get_opcode_string,
  execute_foreground, execute_background, submit_background_command, execute_command,
  get_background_command_status, register_command, work,
}

-- What happens to the executor, with the number of turns that the worker has had: a command is requested
-- or registered, or the worker takes a turn.
pub data Run (e : CciExecutor) : ℕ → CciExecutor → Type 0 where
  here : Run e zero e
  executed :
      {n : ℕ} {u v : CciExecutor} (r : CciRequest) (s : CciResponse)
      → Run e n u
      → execute_command r u ≡ ok (s, v)
      → Run e n v
  registered :
      {n : ℕ} {u v : CciExecutor} (opcode : ℕ) (c : CciCommand)
      → Run e n u
      → v ≡ register_command opcode c u
      → Run e n v
  worked : {n : ℕ} {u v : CciExecutor} → Run e n u → work u ≡ some v → Run e (suc n) v

-- While a command is in the slot, a request changes nothing.
submitted_busy :
    (run other : CciRequest → Work) (q : CciRequest) (u : CciExecutor)
    → u.command ≡ some run
    → submit_background_command other q u ≡ (respond true busy, u)
unfolding submit_background_command
submitted_busy run other q u c = rw c refl

guarded :
    (b : Bool) (x : CciResponse × CciExecutor) {p : CciResponse × CciExecutor}
    → (guard b value_error >> ok x) ≡ ok p
    → p.1 ≡ x.1
guarded true x h = ground arith
guarded false x h = absurd (ground arith)

found-unchanged :
    (run : CciRequest → Work) (q : CciRequest) (u : CciExecutor) (f : Option CciCommand)
    (g : Result (Unit {0})) {p : CciResponse × CciExecutor}
    → u.command ≡ some run
    → find_command u.commands q.opcode ≡ f
    → get_opcode_string q.opcode ≡ g
    → execute_command q u ≡ ok p
    → p.1 ≡ u
unfolding execute_command
found-unchanged run q u f (err x) c e g h = absurd (cc)
found-unchanged run q u none (ok y) c e g h = ground arith
found-unchanged run q u (some (background other)) (ok y) c e g h =
    ground (arith, submitted_busy run other q u c)
found-unchanged run q u (some (foreground other)) (ok y) c e g h =
    let response = execute_foreground other q in
    guarded (leb response.return_code invalid_extent_list) (response, u) (rw (g, e) at h)

module _ (run : CciRequest → Work) (r : CciRequest) where
  -- The turns that the worker needs for the command: one to take it, one for each report, one to end.
  abbrev pub turns : ℕ
  turns = 2 + length (execute_background run r).0

  -- The command is in the slot, and the worker has had `n` turns for it.
  abbrev pub Pending : ℕ → CciExecutor → Type 0
  Pending n e =
      (e.command ≡ some run)
      × (e.request ≡ r)
      × (((e.worker ≡ none) × (n ≡ 0))
          ⊎ ((rest : List ℕ) × (e.worker ≡ some (rest, (execute_background run r).1))
              × (n + 1 + length rest ≡ turns)))

  -- The slot is free, and the status is that of the command's result.
  pub record IsDone (e : CciExecutor) : Type 0 where
    pub free : e.command ≡ none
    pub idle : e.worker ≡ none
    pub result : e.response ≡ (execute_background run r).1
    pub status : get_background_command_status e ≡ record {
      opcode = r.opcode;
      percentage_complete = 100;
      return_code = (execute_background run r).1.return_code;
      vendor_specific_status = (execute_background run r).1.vendor_specific_status;
    }

  -- A turn of the worker brings it on, or ends it.
  worked-Pending :
      (n : ℕ) (u v : CciExecutor)
      → Pending n u
      → work u ≡ some v
      → Pending (suc n) v ⊎ (IsDone v × (suc n ≡ turns))
  unfolding work get_background_command_status
  worked-Pending n u v (c, p, inl (w, e)) h =
      inl
        (ground arith, ground arith, inr ((execute_background run r).0, ground arith, omega arith))
  worked-Pending n u v (c, p, inr ([], w, e)) h = inr (
    record {
      free = ground arith;
      idle = ground arith;
      result = ground arith;
      status = ground arith;
    },
    omega arith,
  )
  worked-Pending n u v (c, p, inr (x ∷ rest, w, e)) h =
      inl (ground arith, ground arith, inr (rest, ground arith, omega arith))

  -- Along every run of the executor the command stays there, or has ended.
  Run-Pending :
      {e : CciExecutor} {n : ℕ} {e' : CciExecutor}
      → Pending 0 e
      → Run e n e'
      → Pending n e' ⊎ ((u : CciExecutor) × Run e turns u × IsDone u × (turns ≤ n))
  Run-Pending p here = inl p
  Run-Pending p (executed {u = u} {v = v} q s before h) = elim (Run-Pending p before) [
    | inr done ↦ inr done
    | inl pending ↦
        let same : v ≡ u =
          found-unchanged run q u (find_command u.commands q.opcode) (get_opcode_string q.opcode)
            {p = (s, v)} pending.0 refl refl h in
        inl (subst (Pending _) (sym same) pending)
  ]
  Run-Pending p (registered opcode c before h) = elim (Run-Pending p before) [
    | inr done ↦ inr done
    | inl pending ↦ inl (subst (Pending _) (sym h) pending)
  ]
  Run-Pending {e} {n = suc n} p (worked {u = u} {v = v} before h) = elim (Run-Pending p before) [
    | inr (w, to, done, le) ↦ inr (w, to, done, omega arith)
    | inl pending ↦ elim (worked-Pending n u v pending h) [
      | inl still ↦ inl still
      | inr (done, last) ↦ inr (v, subst (λ k. Run e k v) last (worked before h), done, omega arith)
    ]
  ]

-- A background command with an opcode of its own, requested when the slot and the worker are free, is
-- started; and along every run of the executor after that, of any requests and registrations between the
-- worker's turns, which are at least as many as the command needs, there was a state, when it had had just
-- so many, in which the slot was free again and the status was the request's opcode, 100 percent and the
-- codes of the command's response.
pub submitted-IsDone :
    (run : CciRequest → Work) (r : CciRequest) (s : CciResponse) (e e₁ e₂ : CciExecutor) (n : ℕ)
    → e.command ≡ none
    → e.worker ≡ none
    → get_opcode_string r.opcode ≡ ok tt
    → find_command e.commands r.opcode ≡ some (background run)
    → execute_command r e ≡ ok (s, e₁)
    → Run e₁ n e₂
    → turns run r ≤ n
    → (s ≡ respond true background_command_started)
      × ((u : CciExecutor) × Run e₁ (turns run r) u × IsDone run r u)
unfolding execute_command submit_background_command
submitted-IsDone run r s e e₁ e₂ n free idle named found h after enough =
    let p : Pending run r 0 e₁ = (ground arith, ground arith, inl (ground arith, refl)) in
    (
      ground arith,
      elim (Run-Pending run r p after) [
        | inr (u, to, done, le) ↦ (u, to, done)
        | inl (c, q, inl (w, none_yet)) ↦ absurd (omega arith)
        | inl (c, q, inr (rest, w, left)) ↦ absurd (omega arith)
      ],
    )
