-- ===== src/Kernel/Rows/Loaded.antt =====
-- What `loadRowPayload` of pkg/kernel/state.go reads after `persistWorkbookRows`, over the versioned state of pkg/state.
use soyaos.Prelude.{
  ℕ, suc, ◌+◌, ◌≤◌, ◌<◌, ◌≡◌, ◌≢◌, refl, sym, ◌∙◌, ap, subst, inl, inr, true, List, [], ◌∷◌, Option,
  none, some, Bytes, Result, ok, err, is_ok, ltb, ◌==◌, length, get_elem?, All, arith, Bool-cases,
  if_both, if◌then◌else◌,
}
use soyaos.Store.{Store}
use soyaos.State
use soyaos.State.{Codec, Entry, StateError, scope_row, put_call, make_entry, bump, perform}
use soyaos.State.Cells.{IsPlain}
use soyaos.State.Keeps.{reads-perform}
use soyaos.State.Isolation.{get-perform_ne}
use soyaos.State.Swaps.{get-put}
use soyaos.Soyapack.{Unicode}
use soyaos.Kernel.Agents.{Agent}
use soyaos.Kernel.Rows.{
  Value, Payload, Sheet, Snapshot, Workbook, Identity, KernelError, row_payload_state_key,
  declared_state, row_state_owner, row_name, row_payload, Done, wrote, then_do, put_row, put_rows,
  put_sheets, persist_workbook_rows, decoded_row, load_in, load_row_payload,
}
use soyaos.Kernel.Rows.Cells.{row_limit, cell_from, cell_from_step, cell_from_zero, owner_ne}

module _ (U : Unicode) (S : Store) (J : Codec) (W : Workbook) {H : Type 0} (now : ℕ)
    (agent : Agent H) (id : Identity) (request : Bytes) where
  abbrev owner_of : ℕ → Bytes
  owner_of n = row_state_owner agent id (row_name n)

  abbrev loads : S.Db → ℕ → Result KernelError (Option Payload)
  loads d n = load_row_payload U S J W agent id (row_name n) d

  -- A sheet that has the row replaces what was there.
  abbrev pub over :
      List Bytes
      → ℕ
      → Option (List Value)
      → Result KernelError (Option Payload)
      → Result KernelError (Option Payload)
  over headers n none r = r
  over headers n (some row) r = ok (some (W.again (row_payload U request headers n row)))

  -- The specification: a row is that of the last sheet which has it.
  abbrev pub last_of :
      List Sheet → ℕ → Result KernelError (Option Payload) → Result KernelError (Option Payload)
  last_of [] n r = r
  last_of (sheet ∷ sheets) n r = last_of sheets n (over sheet.headers n (get_elem? sheet.rows n) r)

  module _ {scope_name : Bytes} (stateful : declared_state agent.manifest ≡ some scope_name)
      (plain : (n : ℕ) → IsPlain J scope_row (owner_of n) row_payload_state_key) where
    abbrev put_encoded_row : ℕ → Bytes → S.Db → Result StateError Entry × S.Db
    put_encoded_row n b d = State.put S J d now scope_row (owner_of n) row_payload_state_key b

    wrote_ok :
        (r : Result StateError Entry × S.Db)
        → (is_ok (wrote U S J W r).0 ≡ is_ok r.0) × ((wrote U S J W r).1 ≡ r.1)
    wrote_ok (ok _, d) = (refl, refl)
    wrote_ok (err _, d) = (refl, refl)

    get_other :
        (d : S.Db) (m n : ℕ) (b : Bytes)
        → S.Reads d
        → owner_of m ≢ owner_of n
        → State.get S J (put_encoded_row m b d).1 scope_row (owner_of n) row_payload_state_key
          ≡ State.get S J d scope_row (owner_of n) row_payload_state_key
    unfolding perform
    get_other d m n b h ne =
        get-perform_ne S J d (put_call now scope_row (owner_of m) row_payload_state_key b) scope_row
          (owner_of n) row_payload_state_key h (λ e. ne (ap (λ (t : Bytes × Bytes × Bytes). t.1) e))

    reads_row : (d : S.Db) (m : ℕ) (b : Bytes) → S.Reads d → S.Reads (put_encoded_row m b d).1
    unfolding perform
    reads_row d m b h =
        reads-perform S J d (put_call now scope_row (owner_of m) row_payload_state_key b) h

    -- A row that is written is what is loaded, and the other rows stay.
    load_row :
        (d : S.Db) (m n : ℕ) (p : Payload) (b : Bytes)
        → S.Reads d
        → m < row_limit
        → n < row_limit
        → W.marshal p ≡ some b
        → is_ok (put_encoded_row m b d).0 ≡ true
        → loads (put_encoded_row m b d).1 n ≡ (if m == n then ok (some (W.again p)) else loads d n)
    unfolding load_row_payload
    load_row d m n p b h mlt nlt e done = elim (Bool-cases (m == n)) [
      | inl same ↦
          let eq : m ≡ n = ground arith in
          rw same (
            ap (λ k. loads (put_encoded_row m b d).1 k) (sym eq)
            ∙ rw stateful (
                rw
                  (get-put S J d now scope_row (owner_of m) row_payload_state_key b h (plain m)
                    done)
                  (ap decoded (W.unmarshal-marshal p b e))))
      | inr apart ↦ rw apart (
          ap (λ r. load_in U S J W (declared_state agent.manifest) r)
            (get_other d m n b h (owner_ne agent id m n mlt nlt (ground arith))))
    ]
      where
        decoded : Option Payload → Result KernelError (Option Payload)
        decoded = decoded_row U S J W

    abbrev IsStep :
        S.Db
        → S.Db
        → (ℕ → Result KernelError (Option Payload) → Result KernelError (Option Payload))
        → Type 0
    IsStep d d' f = S.Reads d' × ((n : ℕ) → n < row_limit → loads d' n ≡ f n (loads d n))

    put_row-IsStep :
        (headers : List Bytes) (m : ℕ) (row : List Value) (d : S.Db)
        → S.Reads d
        → m < row_limit
        → is_ok
            (put_row U S J W now agent id m (W.marshal (row_payload U request headers m row)) d).0
          ≡ true
        → IsStep d
            (put_row U S J W now agent id m (W.marshal (row_payload U request headers m row)) d).1
            (λ n r. if m == n then over headers m (some row) r else r)
    unfolding put_row
    put_row-IsStep headers m row d h mlt done =
        go (W.marshal (row_payload U request headers m row)) refl done
      where
        go :
            (o : Option Bytes)
            → W.marshal (row_payload U request headers m row) ≡ o
            → is_ok (put_row U S J W now agent id m o d).0 ≡ true
            → IsStep d
                (put_row U S J W now agent id m o d).1
                (λ n r. if m == n then over headers m (some row) r else r)
        go none e done' = cc
        go (some b) e done' =
            let w = wrote_ok (put_encoded_row m b d) in
            (
              rw w.1 (reads_row d m b h),
              λ n nlt. rw w.1 (
                  load_row d m n (row_payload U request headers m row) b h mlt nlt e
                    (sym w.0 ∙ done')),
            )

    over_cell :
        (headers : List Bytes) (start n : ℕ) (row : List Value) (rows : List (List Value))
        (r : Result KernelError (Option Payload))
        → over headers n
            (cell_from (suc start) rows n)
            (if start == n then over headers start (some row) r else r)
          ≡ over headers n (cell_from start (row ∷ rows) n) r
    over_cell headers start n row rows r = elim (Bool-cases (start == n)) [
      | inl e ↦
          let same : start ≡ n = ground arith in
          let beyond : ltb n (suc start) ≡ true = ground arith in
          rw (cell_from_step start row rows n)
            (rw (e, beyond) (ap (λ k. over headers k (some row) r) same))
      | inr e ↦ rw (cell_from_step start row rows n) (rw e refl)
    ]

    put_rows-IsStep :
        (headers : List Bytes) (start : ℕ) (rows : List (List Value)) (d : S.Db)
        → S.Reads d
        → start + length rows ≤ row_limit
        → is_ok (put_rows U S J W now agent id request headers start rows d).0 ≡ true
        → IsStep d
            (put_rows U S J W now agent id request headers start rows d).1
            (λ n r. over headers n (cell_from start rows n) r)
    unfolding put_rows
    put_rows-IsStep headers start [] d h few done = (
      h,
      λ n nlt. if_both (λ o. loads d n ≡ over headers n o (loads d n)) (ltb n start) refl refl,
    )
    put_rows-IsStep headers start (row ∷ rows) d h few done =
        go (λ d' h' done'. put_rows-IsStep headers (suc start) rows d' h' (omega arith) done')
          (put_row U S J W now agent id start (W.marshal (row_payload U request headers start row))
            d)
          refl done
      where
        go :
            ((d' : S.Db)
              → S.Reads d'
              → is_ok (put_rows U S J W now agent id request headers (suc start) rows d').0 ≡ true
              → IsStep d'
                  (put_rows U S J W now agent id request headers (suc start) rows d').1
                  (λ n r. over headers n (cell_from (suc start) rows n) r))
            → (w : Done U S J W)
            → put_row U S J W now agent id start
                (W.marshal (row_payload U request headers start row))
                d
              ≡ w
            → is_ok
                (then_do U S J W
                  (put_rows U S J W now agent id request headers (suc start) rows)
                  w).0
              ≡ true
            → IsStep d
                (then_do U S J W
                  (put_rows U S J W now agent id request headers (suc start) rows)
                  w).1
                (λ n r. over headers n (cell_from start (row ∷ rows) n) r)
        go ih (ok u, d1) e done' =
            let (h1, first) =
              put_row-IsStep headers start row d h (omega arith)
                (ap (λ (w : Done U S J W). is_ok w.0) e) in
            let h1' : S.Reads d1 = subst (λ (w : Done U S J W). S.Reads w.1) e h1 in
            let (h2, rest) = ih d1 h1' done' in
            (
              h2,
              λ n nlt.
                  rest n nlt
                  ∙ (ap (over headers n (cell_from (suc start) rows n))
                        (ap (λ (w : Done U S J W). loads w.1 n) (sym e) ∙ first n nlt)
                      ∙ over_cell headers start n row rows (loads d n)),
            )
        go ih (err x, d1) e done' = cc

    put_sheets-IsStep :
        (sheets : List Sheet) (d : S.Db)
        → S.Reads d
        → All (λ sheet. length sheet.rows ≤ row_limit) sheets
        → is_ok (put_sheets U S J W now agent id request sheets d).0 ≡ true
        → IsStep d (put_sheets U S J W now agent id request sheets d).1 (λ n r. last_of sheets n r)
    unfolding put_sheets
    put_sheets-IsStep [] d h few done = (h, λ n nlt. refl)
    put_sheets-IsStep (sheet ∷ sheets) d h few done =
        go (λ d' h' done'. put_sheets-IsStep sheets d' h' few.1 done')
          (put_rows U S J W now agent id request sheet.headers 0 sheet.rows d) refl done
      where
        go :
            ((d' : S.Db)
              → S.Reads d'
              → is_ok (put_sheets U S J W now agent id request sheets d').0 ≡ true
              → IsStep d'
                  (put_sheets U S J W now agent id request sheets d').1
                  (λ n r. last_of sheets n r))
            → (w : Done U S J W)
            → put_rows U S J W now agent id request sheet.headers 0 sheet.rows d ≡ w
            → is_ok (then_do U S J W (put_sheets U S J W now agent id request sheets) w).0 ≡ true
            → IsStep d
                (then_do U S J W (put_sheets U S J W now agent id request sheets) w).1
                (λ n r. last_of (sheet ∷ sheets) n r)
        go ih (ok u, d1) e done' =
            let (h1, first) =
              put_rows-IsStep sheet.headers 0 sheet.rows d h (omega (arith, few.0))
                (ap (λ (w : Done U S J W). is_ok w.0) e) in
            let h1' : S.Reads d1 = subst (λ (w : Done U S J W). S.Reads w.1) e h1 in
            let (h2, rest) = ih d1 h1' done' in
            (
              h2,
              λ n nlt.
                  rest n nlt
                  ∙ ap (last_of sheets n) (
                      ap (λ (w : Done U S J W). loads w.1 n) (sym e)
                      ∙ (first n nlt
                          ∙ ap (λ o. over sheet.headers n o (loads d n))
                              (cell_from_zero sheet.rows n))),
            )
        go ih (err x, d1) e done' = cc

module _ (U : Unicode) (S : Store) (J : Codec) (W : Workbook) {H : Type 0} (agent : Agent H)
    (id : Identity) {scope_name : Bytes}
    (stateful : declared_state agent.manifest ≡ some scope_name) where
  -- After `persistWorkbookRows` succeeded for an agent with state, the row of a number that
  -- `loadRowPayload` loads is that of the last sheet which has it, as it comes back from JSON, and
  -- what was stored before if none has it, where reads do not fail, the sheets have fewer than
  -- 2^63 rows, and the codec of the state keeps the names of the rows.
  pub load-persist :
      (now : ℕ) (body : Bytes) (d : S.Db) (s : Snapshot) (n : ℕ)
      → S.Reads d
      → ((m : ℕ)
          → IsPlain J scope_row (row_state_owner agent id (row_name m)) row_payload_state_key)
      → W.snapshot body ≡ some s
      → All (λ sheet. length sheet.rows ≤ row_limit) s.sheets
      → n < row_limit
      → is_ok (persist_workbook_rows U S J W now agent id body d).0 ≡ true
      → load_row_payload U S J W agent id
          (row_name n)
          (persist_workbook_rows U S J W now agent id body d).1
        ≡ last_of U S J W now agent id s.original_request s.sheets n
            (load_row_payload U S J W agent id (row_name n) d)
  unfolding persist_workbook_rows
  load-persist now body d s n h plain e few nlt done = rw e (
      (put_sheets-IsStep U S J W now agent id s.original_request stateful plain s.sheets d h few
          (rw e at done)).1
        n nlt)
