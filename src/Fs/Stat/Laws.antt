-- ===== src/Fs/Stat/Laws.antt =====
-- Scanning and assigning.
use metasys.Base.{ℕ, zero, suc, ◌≡◌, refl}
use metasys.Machine.{Addr, Machine, out_of_fuel}
use metasys.Fs.Stat.{assign}

-- The assignment operator never returns, with any amount of fuel: its body is a call of itself.
assign-diverges :
    (fuel : ℕ) (this other : Addr) (s : Machine) → assign fuel this other s ≡ out_of_fuel s
unfolding assign
assign-diverges zero this other s = refl
assign-diverges (suc fuel) this other s = assign-diverges fuel this other s
