-- ===== src/Tests/PushData.antt =====
-- Runs of PushData.
use bitcoin_ipc.Prelude.{
  ℕ, zero, suc, ◌≡◌, refl, List, [], ◌∷◌, ◌++◌, length, ◌==◌, if◌then◌else◌, inr,
}
use bitcoin_ipc.Bytes.{le_bytes, drop, front, slice}
use bitcoin_ipc.PushData.{
  Instruction, push_bytes, op_drop, op_true, op, malformed, Scripts, concatenate_op_push_data,
  make_push_data_script, push_data_instructions, push_chunks, Fits,
  concatenate_op_push_data-make_push_data_script,
}

-- A code with the opcodes of Bitcoin, and a length of one number after a push.
abbrev coded : List Instruction → List ℕ
coded [] = []
coded (push_bytes bytes ∷ rest) = 77 ∷ length bytes ∷ (bytes ++ coded rest)
coded (op_drop ∷ rest) = 117 ∷ coded rest
coded (op_true ∷ rest) = 81 ∷ coded rest
coded (op code ∷ rest) = code ∷ coded rest
coded (malformed ∷ rest) = 77 ∷ []

abbrev of_code : ℕ → Instruction
of_code code = if code == 117 then op_drop else if code == 81 then op_true else op code

abbrev decoded : ℕ → List ℕ → List Instruction
decoded zero script = []
decoded (suc fuel) [] = []
decoded (suc fuel) (code ∷ []) = of_code code ∷ []
decoded (suc fuel) (code ∷ n ∷ rest) =
    let pushed = push_bytes (front n rest) ∷ decoded fuel (drop n rest) in
    let next = of_code code ∷ decoded fuel (n ∷ rest) in if code == 77 then pushed else next

abbrev scripts : Scripts
scripts = record { into_script = coded; instructions = decoded 5 }

-- 600 bytes, which take two pushes.
abbrev payload : List ℕ
unfolding le_bytes
payload = le_bytes 600 7

concatenate_op_push_data-make_push_data_script_example :
    (concatenate_op_push_data scripts (make_push_data_script scripts payload) ≡ inr payload)
    × Fits (push_data_instructions payload)
unfolding push_data_instructions push_chunks slice front drop le_bytes
concatenate_op_push_data-make_push_data_script_example =
    concatenate_op_push_data-make_push_data_script scripts payload refl
