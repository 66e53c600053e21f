-- ===== src/Runtime/Ports.antt =====
-- `tpa_chan` finds the port that a process names.
use tpa.Base.{ℕ, zero, suc, ◌+◌, ◌<◌, ◌≡◌, ◌≢◌, refl, ap, sym, ◌∙◌, arith}
use tpa.State.{null, PortRef, World, Config}
use tpa.Runtime.{self, find_port, chan}

zero_plus : (x : ℕ) → 0 + x ≡ x
zero_plus x = omega arith

find_port_from :
    (portv : ℕ → PortRef) (port n i k : ℕ)
    → k < n
    → (portv (i + k)).id ≡ port
    → ((j : ℕ) → j < k → (portv (i + j)).id ≢ port)
    → find_port portv port n i ≡ (portv (i + k)).ch
unfolding find_port
find_port_from portv port zero i k lt here before = elim lt [ ]
find_port_from portv port (suc n) i zero lt here before = ground arith
find_port_from portv port (suc n) i (suc k) lt here before =
    let not_yet = before 0 (omega arith) in
    let e : i + suc k ≡ i + 1 + k = omega arith in
    let rest =
      find_port_from portv port n (i + 1) k (omega arith)
        (ap (λ (x : ℕ). (portv x).id) (sym e) ∙ here)
        (λ j lt' same.
          before (suc j) (omega arith) (ap (λ (x : ℕ). (portv x).id) (omega arith) ∙ same)) in
    ground (arith, rest, ap (λ (x : ℕ). (portv x).ch) e)

find_port_none :
    (portv : ℕ → PortRef) (port n i : ℕ)
    → ((j : ℕ) → j < n → (portv (i + j)).id ≢ port)
    → find_port portv port n i ≡ null
unfolding find_port
find_port_none portv port zero i before = refl
find_port_none portv port (suc n) i before =
    let not_here = before 0 (omega arith) in
    let rest = find_port_none portv port n (i + 1) (λ j lt' same.
      before (suc j) (omega arith) (ap (λ (x : ℕ). (portv x).id) (omega arith) ∙ same)) in
    ground (arith, rest)

module _ (cfg : Config) (me port : ℕ) (w : World) (some_proc : self cfg me w ≢ null) where
  -- `tpa_chan` gives the channel of the first port of the running process that has the identifier.
  pub chan-first :
      (i : ℕ)
      → i < (w.procs (self cfg me w)).nr_portv
      → ((w.procs (self cfg me w)).portv i).id ≡ port
      → ((j : ℕ) → j < i → ((w.procs (self cfg me w)).portv j).id ≢ port)
      → chan cfg me port w ≡ ((w.procs (self cfg me w)).portv i).ch
  unfolding chan
  chan-first i lt here before =
      let q = w.procs (self cfg me w) in
      let at = λ (x : ℕ). ap (λ (y : ℕ). (q.portv y).id) (zero_plus x) in
      let found =
        find_port_from q.portv port q.nr_portv 0 i lt (at i ∙ here)
          (λ j below same. before j below (sym (at j) ∙ same)) in
      ground (arith, found, ap (λ (y : ℕ). (q.portv y).ch) (zero_plus i))

  -- `tpa_chan` gives the null pointer when no port of the running process has the identifier.
  pub chan-none :
      ((j : ℕ)
        → j < (w.procs (self cfg me w)).nr_portv
        → ((w.procs (self cfg me w)).portv j).id ≢ port)
      → chan cfg me port w ≡ null
  unfolding chan
  chan-none before =
      let q = w.procs (self cfg me w) in
      let none_found = find_port_none q.portv port q.nr_portv 0 (λ j below same.
        before j below (ap (λ (y : ℕ). (q.portv y).id) (sym (zero_plus j)) ∙ same)) in
      ground (arith, none_found)
