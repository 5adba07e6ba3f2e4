-- ===== src/Sched/Pthread/Cast/Laws.antt =====
-- What is put into the pointer comes out of it.
use metasys.Base.{ℕ, ◌+◌, ◌-◌, ◌*◌, ◌/◌, ◌^◌, ◌≤◌, ◌<◌, ◌≡◌, refl, ◌∙◌, Bool, true, false, arith}
use metasys.Machine.{M, Machine}
use metasys.Sched.Pthread.Cast.{is_pointer_transferable, ptr_cast, wrapper_obj}
use native.Mathlib.Nat.{add-mul-div_right, add-mul-mod_self_right, div-eq_of_lt, mod-eq_of_lt}

-- A value of a type no larger than a pointer that is passed through the `void *` of a thread
-- routine reaches the method of the wrapper as it was, on machines of either byte order, whatever
-- the bytes that the type does not cover hold.
pub wrapper_obj-ptr_cast :
    {B : Type 0} (little : Bool) (size junk value : ℕ) (method : ℕ → M B) (s : Machine)
    → is_pointer_transferable size ≡ true
    → value < 2 ^ (8 * size)
    → junk < 2 ^ (8 * (8 - size))
    → wrapper_obj little size method (ptr_cast little size junk value) s ≡ method value s
unfolding wrapper_obj ptr_cast
wrapper_obj-ptr_cast true size junk value method s fits small rest =
    rw (add-mul-mod_self_right value junk (2 ^ (8 * size)), mod-eq_of_lt small) refl
wrapper_obj-ptr_cast false size junk value method s fits small rest =
    let bound : size ≤ 8 = ground (arith, fits) in
    let p = 2 ^ (8 * (8 - size)) in
    let swapped : value * p + junk ≡ junk + value * p = omega arith in
    let high : (junk + value * p) / p ≡ value =
      add-mul-div_right junk value (omega (arith, rest)) ∙ rw (div-eq_of_lt rest) (omega arith) in
    rw (swapped, high, mod-eq_of_lt small) refl
