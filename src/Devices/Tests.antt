-- ===== src/Devices/Tests.antt =====
-- `serial_read` over a port that has received three bytes.
use tiny_os_project.Prelude.{ℕ, ◌≡◌, refl, arith, Option, some, none, List, [], ◌∷◌}
use tiny_os_project.Pipe.Buffer.{slice}
use tiny_os_project.Devices.Serial.{returns, serial_read, serial_read-delivers}

abbrev read_port : ℕ → List ℕ → Option ℕ × List ℕ
read_port port [] = (none, [])
read_port port (x ∷ l) = (some x, l)

abbrev received : List ℕ → List ℕ
received b = b

read_nothing :
    (b : List ℕ) → received b ≡ [] → ((read_port 0 b).0 ≡ none) × (received (read_port 0 b).1 ≡ [])
read_nothing b e = rw e (refl, refl)

read_first :
    (b : List ℕ) (x : ℕ) (l : List ℕ)
    → received b ≡ x ∷ l
    → ((read_port 0 b).0 ≡ some x) × (received (read_port 0 b).1 ≡ l)
read_first b x l e = rw e (refl, refl)

serial_read-delivers_example :
    (filled : ℕ → ℕ) × (b' : List ℕ) × (serial_read read_port 0 (λ i. 0) 2 (7 ∷ 8 ∷ 9 ∷ [])
      ≡ returns 2 filled b')
    × (slice filled 0 2 ≡ 7 ∷ 8 ∷ [])
    × (received b' ≡ 9 ∷ [])
serial_read-delivers_example =
    serial_read-delivers read_port 0 received read_nothing read_first (λ i. 0) 2 (7 ∷ 8 ∷ 9 ∷ [])
      (omega arith)
