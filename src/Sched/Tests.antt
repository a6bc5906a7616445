-- ===== src/Sched/Tests.antt =====
-- The scheduler on concrete runs.
use nyan_os.Base.{◌≢◌, ◌++◌, map, ◌<◌, ◌≡◌, refl, none, some, [], length, arith}
use nyan_os.Sched.{
  Task, Sched, sched_init, kernel_task, sys_fork, task_factory_fork, curr_task, closed_files,
  retained_files, sched_new_task, sched_register_task, schedule, sched_find_task, next_task,
  is_ready, index, sched_exit, sched_reap_zombies,
}
use nyan_os.Sched.Find.{Distinct}
use nyan_os.Sched.Ends.{left_by, closes, sched_exit-left_by}
use nyan_os.Sched.Inv.{Inv}
use nyan_os.Sched.Reach.{Reach, here, next, fork, tick, Reach-Inv}
use nyan_os.Sched.Turns.{Passed, start, pass, Passed-lt-length}

-- The tasks 1 and 2 beside the kernel's.
abbrev three_tasks : Sched
three_tasks = sys_fork [] (sys_fork [] sched_init)

three_tasks-Reach : Reach three_tasks
three_tasks-Reach = next (next here (fork [])) (fork [])

-- Task 2 runs, ends, and is freed; the kernel's task goes on.
abbrev after_exit : Sched
after_exit = sched_reap_zombies (sched_exit 7 (schedule three_tasks))

after_exit_lem : (after_exit.curr ≡ some 1) × (sched_find_task 2 after_exit.tasks ≡ none)
unfolding sched_init sys_fork task_factory_fork curr_task sched_find_task closed_files
    retained_files sched_new_task sched_register_task schedule sched_exit sched_reap_zombies
after_exit_lem = (refl, refl)

-- Task 1 is passed over once, for task 2.
abbrev task_1 : Task
task_1 = (task_factory_fork [] kernel_task sched_init).0

passed_once : Passed 1 1 three_tasks (schedule three_tasks)
unfolding sched_init sys_fork task_factory_fork curr_task sched_find_task closed_files
    retained_files sched_new_task sched_register_task next_task is_ready
passed_once =
    pass three_tasks task_1 (start three_tasks) (record { same_tasks = refl; same_curr = refl })
      refl refl (λ e. ground arith)

three_tasks-Distinct : Distinct three_tasks.tasks
unfolding sched_init sys_fork task_factory_fork curr_task sched_find_task closed_files
    retained_files sched_new_task sched_register_task index
three_tasks-Distinct = (refl, (refl, (refl, tt)))

kernel_first : index 0 three_tasks.tasks < length three_tasks.tasks
unfolding sched_init sys_fork task_factory_fork curr_task sched_find_task closed_files
    retained_files sched_new_task sched_register_task index
kernel_first = omega arith

kernel_runs : three_tasks.curr ≡ some 0
unfolding sched_init sys_fork task_factory_fork curr_task sched_find_task closed_files
    retained_files sched_new_task sched_register_task
kernel_runs = refl

Passed-lt-length_example : 1 < length three_tasks.tasks
Passed-lt-length_example =
    Passed-lt-length 1 0 1 three_tasks (schedule three_tasks) kernel_runs three_tasks-Distinct
      kernel_first passed_once

-- Task 2 is current, and ends.
abbrev running_two : Sched
running_two = schedule three_tasks

task_2 : Task
task_2 = (task_factory_fork [] kernel_task (sys_fork [] sched_init)).0

running_two-curr : curr_task running_two ≡ some task_2
unfolding sched_init sys_fork task_factory_fork curr_task sched_find_task closed_files
    retained_files sched_new_task sched_register_task schedule next_task is_ready task_2
running_two-curr = refl

not_kernel : task_2.pid ≢ 0
unfolding task_2 task_factory_fork sched_new_task sys_fork curr_task sched_find_task sched_init
    sched_register_task
not_kernel e = absurd (ground arith)

sched_exit-left_by_example :
    ((sched_exit 7 running_two).tasks ≡ map (left_by 7 task_2) running_two.tasks)
    × ((sched_exit 7 running_two).log ≡ running_two.log ++ closes task_2)
sched_exit-left_by_example =
    sched_exit-left_by 7 task_2 running_two (Reach-Inv running_two (next three_tasks-Reach tick))
      running_two-curr not_kernel
