-- ===== src/Tests/Machine.antt =====
-- An operating system whose calls always succeed, and a cache that never loses an entry: they satisfy
-- what the code relies on.
use quicfs.Base.{◌-◌, min, refl, Option, none, some, inr, arith, if◌then◌else◌}
use quicfs.File.{write}
use quicfs.Io.{Io, ReadLaws, WriteLaws, got}
use quicfs.Server.Sanitize.{Name, name_eq}
use quicfs.Server.Sanitize.Split.{name_eq_refl}
use quicfs.Client.Cache.{Entry, Lru, LruLaws}

abbrev pub plain : Io
plain = record {
  read = λ f offset n. got (min n (f.size - offset));
  write_all = λ offset payload f. (write offset payload f, none);
}

pub plain-WriteLaws : WriteLaws plain
plain-WriteLaws = record { in_place = λ f offset payload h. refl }

pub plain-ReadLaws : ReadLaws plain
plain-ReadLaws = record {
  fits_buffer = λ f offset n k h. ground arith;
  in_file = λ f offset n k h. ground arith;
  progress = λ f offset n pos below h. ground arith;
}

abbrev pub roomy : (Stat : Type 0) → Lru Stat
roomy Stat = record {
  State = Name → Option (Entry Stat);
  empty = λ n p. none;
  peek = λ p c. c p;
  get = λ p c. (c, c p);
  put = λ p e c q. if name_eq p q then some e else c q;
  pop = λ p c q. if name_eq p q then none else c q;
  clear = λ c q. none;
}

pub roomy-LruLaws : (Stat : Type 0) → LruLaws Stat (roomy Stat)
roomy-LruLaws Stat = record {
  empty_none = λ n p. refl;
  get_peek = λ p c. refl;
  get_keeps = λ p q c. refl;
  put_same = λ p e c. rw (name_eq_refl p) refl;
  put_other = λ p q e c h. inr (rw h refl);
  pop_peek = λ p q c. refl;
  clear_none = λ p c. refl;
}
