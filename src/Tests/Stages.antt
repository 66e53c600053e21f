-- ===== src/Tests/Stages.antt =====
-- Tests of the stages of the network.
use tpa.Base.{ℕ, zero, suc, ◌+◌, ◌*◌, ◌/◌, ◌%◌, ◌≡◌, refl, false, some, arith, inl}
use tpa.Depth.Program.{tpa_send}
use tpa.Yolo.Bytes.{Bytes}
use tpa.Yolo.Arena.{Arenas}
use tpa.Yolo.Conv.{TensorUnit}
use tpa.Yolo.Join.{concat2}
use tpa.Yolo.Join.InPlace.{concat2_in_place-overwrites}
use tpa.Yolo.Stage.{Generated, ResidualTables, P0Ws, p0_run, nr_pix_160, input_bytes}
use tpa.Yolo.Stage.P0.{GeneratedFits, op_of, p0_run-sends}

abbrev still : TensorUnit
still = record {
  S = ℕ;
  clear_error = λ s. s;
  load = λ dst_start transformation addr num_lines stride id m s. s;
  wait = λ w s. s;
  fma = λ bcols rows cols last b_start a_start type first s. s;
  quant = λ cols rows line steps s. s;
  store = λ reg_stride start cols rows addr stride s m. (s, m);
  error = λ s. 0;
}

abbrev inner : ℕ → ℕ
inner zero = 108
inner (suc zero) = 144
inner (suc (suc zero)) = 32
inner (suc (suc (suc zero))) = 16
inner (suc (suc (suc (suc zero)))) = 144
inner (suc (suc (suc (suc (suc i))))) = 32

abbrev rows_of : ℕ → ℕ
rows_of zero = 128
rows_of (suc zero) = 192
rows_of (suc (suc zero)) = 64
rows_of (suc (suc (suc zero))) = 64
rows_of (suc (suc (suc (suc zero)))) = 192
rows_of (suc (suc (suc (suc (suc i))))) = 64

abbrev headers : ℕ → Generated
headers i = record {
  tl8_b = 10000000 + i * 100000;
  bias_blk = 11000000 + i * 1000;
  scale_blk = 12000000 + i * 1000;
  k_inner = inner i;
  k_padded = rows_of i;
  k_block = 64;
  k_blocks = rows_of i / 64;
  tl8_row_stride = 16;
  oc_blocks = 1;
}

headers-GeneratedFits : GeneratedFits headers
headers-GeneratedFits = record {
  inner0 = refl;
  inner1 = refl;
  inner2 = refl;
  inner3 = refl;
  inner4 = refl;
  inner5 = refl;
  inner6 = refl;
  rows0 = omega arith;
  rows1 = omega arith;
  rows2 = omega arith;
  rows3 = omega arith;
  rows4 = omega arith;
  rows5 = omega arith;
  rows6 = omega arith;
}

abbrev residual_tables : ResidualTables
residual_tables = record {
  p0_lut0 = 13000000;
  p1_lut0 = 13000256;
  p1_lut1 = 13000512;
  p2_lut0 = 13000768;
  p2_lut1 = 13001024;
  p2_lut2 = 13001280;
  p3_lut0 = 13001536;
}

abbrev one_arena : Arenas
one_arena hart = record { base = 4096; cap = 3000000; brk = 17; hi = 99; declared_cap = 0 }

abbrev photo_in : P0Ws
photo_in = record { input = 20000000; in_len = input_bytes }

abbrev memory : Bytes
memory a = a % 7

p0_run-sends_example :
    op_of (
      p0_run still 1 0 headers
        (λ i. 0)
        residual_tables
        (λ s d i. i)
        14000000
        41
        9
        photo_in
        30000000
        0
        1
        false
        memory
        one_arena)
    ≡ some (tpa_send 41 30000000 (nr_pix_160 * 32) 9)
p0_run-sends_example =
    p0_run-sends still (λ s. refl) headers (λ i. 0) headers-GeneratedFits 1 0 residual_tables
      (λ s d i. i) 14000000 41 9 photo_in 30000000 0 1 false memory one_arena
      (λ e. absurd (omega (arith, e))) refl (omega arith) (λ e. absurd (omega (arith, e)))
      (omega arith) (omega arith)

concat2_in_place-overwrites_example :
    concat2 0 16 1000 16 4 0 memory (0 + (16 + 16) + 3) ≡ memory (1000 + 3)
concat2_in_place-overwrites_example =
    concat2_in_place-overwrites 0 1000 16 4 3 memory refl (omega arith) (omega arith)
      (inl (omega arith))
