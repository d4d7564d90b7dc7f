-- ===== src/Os/Laws.antt =====
-- What POSIX documents of `send` and `recv` on a connected stream, stated by two observations of
-- the kernel's state: the bytes that it has accepted for a descriptor, and the bytes that it will
-- still deliver on it.
use embedded_comm_reliabilit.Common.{ℕ, ◌≤◌, ◌<◌, ◌≡◌, List, [], ◌++◌, length, take, IsBytes}
use embedded_comm_reliabilit.Protocol.Error.{Errno, eintr}
use embedded_comm_reliabilit.Os.{Os, done, failed}

pub record StreamLaws (os : Os) : Type 0 where
  -- The bytes accepted by `send` on a descriptor so far.
  pub sent : os.World → ℕ → List ℕ
  -- The bytes that `recv` on a descriptor has yet to deliver.
  pub pending : os.World → ℕ → List ℕ
  -- How many more calls a signal will interrupt.
  pub interrupts : os.World → ℕ
  pub pending_bytes : (w : os.World) (fd : ℕ) → IsBytes (pending w fd)
  -- `send` accepts a prefix of what it is offered.
  pub send_bound :
      (fd : ℕ) (bs : List ℕ) (w : os.World) (n : ℕ) → (os.send fd bs w).0 ≡ done n → n ≤ length bs
  pub send_accepts :
      (fd : ℕ) (bs : List ℕ) (w : os.World) (n : ℕ)
      → (os.send fd bs w).0 ≡ done n
      → sent (os.send fd bs w).1 fd ≡ sent w fd ++ take n bs
  pub send_refuses :
      (fd : ℕ) (bs : List ℕ) (w : os.World) (e : Errno)
      → (os.send fd bs w).0 ≡ failed e
      → sent (os.send fd bs w).1 fd ≡ sent w fd
  pub send_interrupts :
      (fd : ℕ) (bs : List ℕ) (w : os.World) → interrupts (os.send fd bs w).1 ≤ interrupts w
  pub send_interrupted :
      (fd : ℕ) (bs : List ℕ) (w : os.World)
      → (os.send fd bs w).0 ≡ failed eintr
      → interrupts (os.send fd bs w).1 < interrupts w
  -- `recv` delivers the next bytes, at most as many as it is asked for; none only at the end.
  pub recv_bound :
      (fd size : ℕ) (w : os.World) (bs : List ℕ)
      → (os.recv fd size w).0 ≡ done bs
      → length bs ≤ size
  pub recv_delivers :
      (fd size : ℕ) (w : os.World) (bs : List ℕ)
      → (os.recv fd size w).0 ≡ done bs
      → pending w fd ≡ bs ++ pending (os.recv fd size w).1 fd
  pub recv_end :
      (fd size : ℕ) (w : os.World) → 0 < size → (os.recv fd size w).0 ≡ done [] → pending w fd ≡ []
  pub recv_refuses :
      (fd size : ℕ) (w : os.World) (e : Errno)
      → (os.recv fd size w).0 ≡ failed e
      → pending (os.recv fd size w).1 fd ≡ pending w fd
  pub recv_interrupts :
      (fd size : ℕ) (w : os.World) → interrupts (os.recv fd size w).1 ≤ interrupts w
  pub recv_interrupted :
      (fd size : ℕ) (w : os.World)
      → (os.recv fd size w).0 ≡ failed eintr
      → interrupts (os.recv fd size w).1 < interrupts w
