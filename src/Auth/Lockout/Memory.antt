-- ===== src/Auth/Lockout/Memory.antt =====
-- Redis in memory, always there: an instance of what brute_force_protection.py asks of it.
use codelab_ai_service.Prelude.{
  Option, get_or, if◌then◌else◌, none, refl, some, true, ℕ, ◌+◌, ◌||◌, arith, is_some, ◌&&◌, ◌≡◌,
}
use codelab_ai_service.Auth.Lockout.{Redis, Key, same_key, outlasts, less}

-- The value of a key, and the seconds that it has left.
abbrev pub Cells : Type 0
Cells = Key → Option ℕ × Option ℕ

abbrev add_one : Key → Cells → Cells
add_one k s j = if same_key k j then (some (get_or (s k).0 0 + 1), (s j).1) else s j

abbrev clear : Key → Key → Cells → Cells
clear a b s j = if same_key a j || same_key b j then (none, none) else s j

abbrev set_end : Key → ℕ → Cells → Cells
set_end k n s j = if same_key k j && is_some (s k).0 then ((s j).0, some n) else s j

abbrev pass_time : ℕ → Cells → Cells
pass_time n s j = if outlasts n (s j).1 then ((s j).0, less n (s j).1) else (none, none)

module _ (k j : Key) (n : ℕ) (s : Cells) where
  pub value-add_one :
      (add_one k s j).0 ≡ (if same_key k j then some (get_or (s k).0 0 + 1) else (s j).0)
  value-add_one = ground arith

  pub left-add_one : (add_one k s j).1 ≡ (s j).1
  left-add_one = ground arith

  pub value-set_end : (set_end k n s j).0 ≡ (s j).0
  value-set_end = ground arith

  pub left-set_end :
      (set_end k n s j).1 ≡ (if same_key k j && is_some (s k).0 then some n else (s j).1)
  left-set_end = ground arith

  pub value-pass_time : (pass_time n s j).0 ≡ (if outlasts n (s j).1 then (s j).0 else none)
  value-pass_time = ground arith

  pub left-pass_time : (pass_time n s j).1 ≡ (if outlasts n (s j).1 then less n (s j).1 else none)
  left-pass_time = ground arith

pub value-clear :
    (a b j : Key) (s : Cells)
    → (clear a b s j).0 ≡ (if same_key a j || same_key b j then none else (s j).0)
value-clear a b j s = ground arith

abbrev pub memory : Redis
memory = record {
  Server = Cells;
  value = λ k s. (s k).0;
  is_up = λ s. true;
  incr = λ k s. (some (get_or (s k).0 0 + 1), add_one k s);
  expire = λ k n s. (true, set_end k n s);
  get = λ k s. some (s k).0;
  ttl = λ k s. some 900;
  delete = λ a b s. (true, clear a b s);
  left = λ k s. (s k).1;
  elapse = pass_time;
  incr-answer = λ k s. refl;
  incr-value = λ k j s. value-add_one k j 0 s;
  expire-answer = λ k n s. refl;
  expire-value = λ k j n s. value-set_end k j n s;
  incr-left = λ k j s. left-add_one k j 0 s;
  expire-left = λ k j n s. left-set_end k j n s;
  elapse-value = λ n j s. value-pass_time j j n s;
  elapse-left = λ n j s. left-pass_time j j n s;
  get-answer = λ k s. refl;
  ttl-answer = λ k s. refl;
  delete-answer = λ a b s. refl;
  delete-value = λ a b j s. value-clear a b j s;
}

abbrev pub no_failures : Cells
no_failures k = (none, none)
