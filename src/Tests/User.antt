-- ===== src/Tests/User.antt =====
-- Runs of the user library against the kernel and against the console server.
use nek_os.Base.{
  ℕ, false, none, some, List, [], ◌∷◌, ◌++◌, ◌==◌, if◌then◌else◌, bit_and, inl, M, ◌≡◌, refl, arith,
}
use nek_os.Base.Words.{usize_max}
use nek_os.Trap.{empty_frame}
use nek_os.Ipc.{new_queue}
use nek_os.Task.{Kernel, task_at, position, sign_extend}
use nek_os.Task.Exit.{awaken}
use nek_os.Task.Keep.{same-IsSound}
use nek_os.Task.Messages.{MayAnswer}
use nek_os.Task.Awake.{Woken}
use nek_os.Task.Wake.{Waits}
use nek_os.Syscall.{return_to, handle}
use nek_os.User.Ipc.{call_registers, call_result, recv_result, reply_registers, reply_result}
use nek_os.User.Calls.{exit_registers, waitpid_result}
use nek_os.User.Delivery.{Meets, call-recv}
use nek_os.User.Answers.{reply-call, exit-waitpid}
use nek_os.User.Io.{write, read}
use nek_os.User.Terminal.{IsUart, crlf, line, console_call}
use nek_os.User.Output.{write-sends}
use nek_os.User.Input.{read-line}
use nek_os.Base.{length, take}
use nek_os.User.Shell.{read_line}
use nek_os.User.Edit.{edited}
use nek_os.User.Editor.{read_line-edited}
use nek_os.Tests.Load.{any_text}
use nek_os.Tests.Tasks.{
  four_words, demo, server, client, calling, calling-IsSound, an_endpoint, waiting_endpoint,
  waiting_server, busy_client, ending, ending-IsSound, waiting_parent,
}

-- The client calls the server.
abbrev caller : Kernel
caller = record calling { frames = λ a. call_registers 0 four_words empty_frame }

caller-Meets : Meets 0 waiting_endpoint caller 2 busy_client 1 waiting_server
unfolding task_at new_queue
caller-Meets = record {
  client = refl;
  runs = refl;
  server = refl;
  waits = refl;
  owner = refl;
  known = refl;
  room = refl;
  apart = omega arith;
  frames_apart = omega arith;
}

call-recv_example :
    (next : ℕ) × ((handle any_text [] 528 caller).0 ≡ return_to next)
    × (recv_result ((handle any_text [] 528 caller).1.frames waiting_server.trap_frame)
        ≡ some (2, four_words))
    × Woken (handle any_text [] 528 caller).1.tasks 1 waiting_server
call-recv_example =
    call-recv any_text [] 0 waiting_endpoint four_words empty_frame 528 caller 2 busy_client 1
      waiting_server refl (same-IsSound calling caller refl refl refl calling-IsSound) caller-Meets
      (omega arith)

-- The server answers.
abbrev replier : Kernel
replier = record demo { frames = λ a. reply_registers 2 four_words empty_frame }

replier-MayAnswer : MayAnswer 2 replier 2 client
unfolding position task_at
replier-MayAnswer = record {
  slot = refl;
  task = refl;
  asleep = refl;
  endpoint = 0;
  at = an_endpoint;
  waits = refl;
  known = refl;
  owner = refl;
}

reply-call_example :
    let r = handle any_text [] 264 replier in
    (r.0 ≡ return_to 264)
    × (reply_result (r.1.frames 264) ≡ some tt)
    × (call_result (r.1.frames client.trap_frame)
        ≡ (if four_words.w0 == usize_max then none else some four_words))
    × (task_at 2 r.1.tasks ≡ some (awaken client))
reply-call_example =
    reply-call any_text [] 2 four_words empty_frame 264 replier 2 client refl (omega arith)
      replier-MayAnswer (omega arith)

-- The server exits with -1, and its parent waits for it.
abbrev leaver : Kernel
leaver = record ending { frames = λ a. exit_registers 0xffff_ffff empty_frame }

leaver-Waits : Waits leaver 1 server 2 waiting_parent
unfolding task_at
leaver-Waits = record {
  exiting = refl;
  is_current = refl;
  parent = refl;
  waiting = refl;
  asleep = refl;
  channel = refl;
}

exit-waitpid_example :
    (next : ℕ) × ((handle any_text [] 264 leaver).0 ≡ return_to next)
    × (waitpid_result ((handle any_text [] 264 leaver).1.frames waiting_parent.trap_frame)
        ≡ sign_extend 0xffff_ffff)
    × Woken (handle any_text [] 264 leaver).1.tasks 2 waiting_parent
exit-waitpid_example =
    exit-waitpid any_text [] 0xffff_ffff empty_frame 264 leaver 1 server 2 waiting_parent refl
      (omega arith) (same-IsSound ending leaver refl refl refl ending-IsSound) (omega arith)
      leaver-Waits

-- The exit code -1 looks like the error of waitpid.
minus_one : sign_extend 0xffff_ffff ≡ usize_max
minus_one = refl

-- A UART as the lists of the bytes received and sent.
abbrev Lines : Type 0
Lines = List ℕ × List ℕ

abbrev read_line_reg : ℕ → Lines → ℕ × Lines
read_line_reg offset ([], out) = (if offset == 5 then 0x20 else 0, ([], out))
read_line_reg offset (b ∷ bs, out) = if offset == 5 then (0x21, (b ∷ bs, out)) else (b, (bs, out))

abbrev write_line_reg : ℕ → ℕ → Lines → Lines
write_line_reg offset c (bs, out) = if offset == 0 then (bs, out ++ c ∷ []) else (bs, out)

abbrev received : Lines → List ℕ
received d = d.0

abbrev sent : Lines → List ℕ
sent d = d.1

abbrev no_interrupt : M Lines (Unit {0})
no_interrupt d = (none, d)

lines-IsUart : IsUart read_line_reg write_line_reg received sent
lines-IsUart = record {
  ready = is_ready;
  received = has;
  asked = ask;
  taken = take_one;
  sent = λ c d. (refl, refl);
}
  where
    is_ready : (d : Lines) → (bit_and (read_line_reg 5 d).0 0x20 == 0) ≡ false
    is_ready ([], out) = refl
    is_ready (b ∷ bs, out) = refl

    has :
        (b : ℕ) (bs : List ℕ) (d : Lines)
        → received d ≡ b ∷ bs
        → (bit_and (read_line_reg 5 d).0 0x01 == 0) ≡ false
    has b bs ([], out) e = cc
    has b bs (c ∷ cs, out) e = refl

    ask :
        (d : Lines)
        → (received (read_line_reg 5 d).1 ≡ received d) × (sent (read_line_reg 5 d).1 ≡ sent d)
    ask ([], out) = (refl, refl)
    ask (b ∷ bs, out) = (refl, refl)

    take_one :
        (b : ℕ) (bs : List ℕ) (d : Lines)
        → received d ≡ b ∷ bs
        → ((read_line_reg 0 d).0 ≡ b)
          × (received (read_line_reg 0 d).1 ≡ bs)
          × (sent (read_line_reg 0 d).1 ≡ sent d)
    take_one b bs ([], out) e = cc
    take_one b bs (c ∷ cs, out) e = (cc, cc, refl)

-- `l`, `s` and a carriage return, with one more byte behind them.
abbrev typed : Lines
typed = (b'l' ∷ b's' ∷ b'\r' ∷ b'x' ∷ [], [])

write-sends_example :
    let r =
      write
        (console_call read_line_reg write_line_reg no_interrupt 1)
        1
        (b'l' ∷ b'\n' ∷ [])
        typed in
    (r.0 ≡ 2)
    × (sent r.1 ≡ sent typed ++ crlf (b'l' ∷ b'\n' ∷ []))
    × (received r.1 ≡ received typed)
write-sends_example =
    write-sends read_line_reg write_line_reg no_interrupt received sent lines-IsUart 0 1
      (b'l' ∷ b'\n' ∷ []) typed (inl refl) (omega arith, (omega arith, tt))

typed-line : line 5 (received typed) ≡ some (b'l' ∷ b's' ∷ b'\n' ∷ [], b'x' ∷ [])
unfolding line
typed-line = refl

read-line_example :
    let r =
      read
        (console_call read_line_reg write_line_reg no_interrupt 1)
        0
        (0 ∷ 0 ∷ 0 ∷ 0 ∷ 0 ∷ [])
        typed in
    (r.0 ≡ 3)
    × (r.1 ≡ b'l' ∷ b's' ∷ b'\n' ∷ 0 ∷ 0 ∷ [])
    × (received r.2 ≡ b'x' ∷ [])
    × (sent r.2 ≡ sent typed)
read-line_example =
    read-line read_line_reg write_line_reg no_interrupt received sent lines-IsUart 0
      (0 ∷ 0 ∷ 0 ∷ 0 ∷ 0 ∷ []) typed (b'l' ∷ b's' ∷ b'\n' ∷ []) (b'x' ∷ []) typed-line
      (omega arith, (omega arith, (omega arith, (omega arith, tt))))

-- `l`, `x`, a backspace, `s` and a carriage return, with one more byte behind them.
abbrev corrected : Lines
corrected = (b'l' ∷ b'x' ∷ 8 ∷ b's' ∷ b'\r' ∷ b'y' ∷ [], [])

edited-corrected : edited 5 (received corrected) [] ≡ some (b'l' ∷ b's' ∷ [], b'y' ∷ [])
unfolding edited
edited-corrected = refl

read_line-edited_example :
    (buf' : List ℕ) × (d' : Lines) × (read_line
        (console_call read_line_reg write_line_reg no_interrupt 1)
        7
        0
        (0 ∷ 0 ∷ 0 ∷ 0 ∷ 0 ∷ [])
        corrected
      ≡ some (2, buf', d'))
    × (length buf' ≡ 5)
    × (take 2 buf' ≡ b'l' ∷ b's' ∷ [])
    × (received d' ≡ b'y' ∷ [])
read_line-edited_example =
    read_line-edited read_line_reg write_line_reg no_interrupt received sent lines-IsUart 0
      (0 ∷ 0 ∷ 0 ∷ 0 ∷ 0 ∷ []) corrected (b'l' ∷ b's' ∷ []) (b'y' ∷ []) edited-corrected
      (omega arith, (omega arith, (omega arith, (omega arith, (omega arith, (omega arith, tt))))))
