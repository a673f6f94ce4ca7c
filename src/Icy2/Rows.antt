-- ===== src/Icy2/Rows.antt =====
-- src/icy2_meta.h and src/icy2_meta.c: the members of `icy2_metadata`, which are known by their
-- names, and the rows of the tables that stand for the lines on each of them.
use mcaster1dnas.Base.{Bytes, Option, none, some}

-- The kind of a member: a `char *`, which is copied, or an `int`, which is read by `atoi`.
pub data Kind : Type 0 where
  string integer : Kind

pub record Row : Type 0 where
  pub field : Bytes
  pub kind : Kind
  pub header : Bytes
  pub legacy : Option Bytes

-- A member that is read from one header, and one with a header of version 2.1 to fall back to.
abbrev pub only : Kind → Bytes → Bytes → Row
only kind field header = record { field = field; kind = kind; header = header; legacy = none }

abbrev pub both : Kind → Bytes → Bytes → Bytes → Row
both kind field header legacy = record {
  field = field;
  kind = kind;
  header = header;
  legacy = some legacy;
}

-- The test before a member is reported: a pointer, or a number above 0 or not below 0.
pub data Reports : Type 0 where
  given positive not_negative : Reports

pub record StatRow : Type 0 where
  pub member : Bytes
  pub test : Reports
  pub name : Bytes

abbrev pub stat : Reports → Bytes → Bytes → StatRow
stat test member name = record { member = member; test = test; name = name }
