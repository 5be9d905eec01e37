-- ===== src/Trap.antt =====
-- Trap frames and trap causes, src/kernel/trap.rs.
use nek_os.Base.{ℕ, ◌/◌, ◌^◌, bit_and, ◌==◌, if◌then◌else◌}

pub record TrapFrame : Type 0 where
  pub ra : ℕ
  pub sp : ℕ
  pub gp : ℕ
  pub tp : ℕ
  pub t0 : ℕ
  pub t1 : ℕ
  pub t2 : ℕ
  pub s0 : ℕ
  pub s1 : ℕ
  pub a0 : ℕ
  pub a1 : ℕ
  pub a2 : ℕ
  pub a3 : ℕ
  pub a4 : ℕ
  pub a5 : ℕ
  pub a6 : ℕ
  pub a7 : ℕ
  pub s2 : ℕ
  pub s3 : ℕ
  pub s4 : ℕ
  pub s5 : ℕ
  pub s6 : ℕ
  pub s7 : ℕ
  pub s8 : ℕ
  pub s9 : ℕ
  pub s10 : ℕ
  pub s11 : ℕ
  pub t3 : ℕ
  pub t4 : ℕ
  pub t5 : ℕ
  pub t6 : ℕ
  pub sstatus : ℕ
  pub sepc : ℕ

-- `TrapFrame::new`
abbrev pub empty_frame : TrapFrame
empty_frame = record {
  ra = 0;
  sp = 0;
  gp = 0;
  tp = 0;
  t0 = 0;
  t1 = 0;
  t2 = 0;
  s0 = 0;
  s1 = 0;
  a0 = 0;
  a1 = 0;
  a2 = 0;
  a3 = 0;
  a4 = 0;
  a5 = 0;
  a6 = 0;
  a7 = 0;
  s2 = 0;
  s3 = 0;
  s4 = 0;
  s5 = 0;
  s6 = 0;
  s7 = 0;
  s8 = 0;
  s9 = 0;
  s10 = 0;
  s11 = 0;
  t3 = 0;
  t4 = 0;
  t5 = 0;
  t6 = 0;
  sstatus = 0;
  sepc = 0;
}

-- `size_of::<TrapFrame>()`
abbrev pub frame_size : ℕ
frame_size = 264

pub data TrapCause : Type 0 where
  user_ecall timer external instruction_page_fault load_page_fault store_page_fault : TrapCause
  unknown : ℕ → TrapCause

unfoldable pub parse_cause : ℕ → TrapCause
parse_cause scause =
    let code = bit_and scause 0x7FFF_FFFF in
    if scause / 2 ^ 63 == 0
    then (if code == 8
        then user_ecall
        else if code == 12
        then instruction_page_fault
        else if code == 13
        then load_page_fault
        else if code == 15
        then store_page_fault
        else unknown scause)
    else (if code == 5 then timer else if code == 9 then external else unknown scause)
